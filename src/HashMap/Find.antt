-- ===== src/HashMap/Find.antt =====
-- `hmap_get` against the entries of a bucket.
use neonrt.Base.{
  ℕ, zero, suc, ◌+◌, ◌%◌, ◌≡◌, ◌<◌, refl, ap, ◌∙◌, true, false, Option, none, some, List, [], ◌∷◌,
  ◌++◌, arith, ◌==◌, get_elem?, length, length-append, if◌then◌else◌, Bool-cases, Option-cases, inl,
  inr,
}
use neonrt.Memory.{Ptr, null, HmapBucket, Heap, ok, Run}
use neonrt.Memory.Rules.{Holds, not_null, load_node-ok, load_list-ok, load_linked-ok}
use neonrt.SipWrapper.{SipHash}
use neonrt.Buffer.{buff_cmp_raw}
use neonrt.Buffer.Rules.{KeyAt}
use neonrt.Buffer.Compare.{runtime_hash, buff_cmp_raw_lem}
use neonrt.LinkedList.Seg.{Nodes, ll_node, Seg, nil, cons}
use neonrt.HashMap.{Hmap, Env, error_key_mismatch}
use neonrt.HashMap.Chain.{find_loop, linked_list_find, hmap_complex_key_get_value}
use neonrt.HashMap.Closed.{failed}
use neonrt.HashMap.Slot.{
  Entry, Entries, length-Entries, none_left, entry, Slot, vacant, single, chain,
}
use neonrt.HashMap.Lookup.{
  Reaches, passes, hmap_hash-ok, load_bucket-ok, hmap_get-vacant, hmap_get-key,
}
use neonrt.HashMap.Table.{hmap_get}

-- The value of the first key with the hash of the key given.
unfoldable pub find : SipHash → List ℕ → List Entry → Option Ptr
find sip key [] = none
find sip key ((k, v) ∷ es) =
    if runtime_hash sip k == runtime_hash sip key then some v else find sip key es

abbrev pub or_null : Option Ptr → Ptr
or_null none = null
or_null (some v) = v

module _ (sip : SipHash) (key k : List ℕ) (v : Ptr) where
  -- One more entry counts where no entry before it does, and has no effect otherwise.
  pub find-snoc_new :
      (es : List Entry)
      → find sip key es ≡ none
      → (runtime_hash sip k == runtime_hash sip key) ≡ true
      → find sip key (es ++ ((k, v) ∷ [])) ≡ some v
  unfolding find
  find-snoc_new [] missing same = rw same refl
  find-snoc_new ((k', v') ∷ es) missing same =
      elim (Bool-cases (runtime_hash sip k' == runtime_hash sip key)) [
        | inl e ↦ ground (arith, e)
        | inr e ↦ rw e (find-snoc_new es (ground (arith, e)) same)
      ]

  pub find-snoc_other :
      (es : List Entry)
      → (runtime_hash sip k == runtime_hash sip key) ≡ false
      → find sip key (es ++ ((k, v) ∷ [])) ≡ find sip key es
  unfolding find
  find-snoc_other [] differ = rw differ refl
  find-snoc_other ((k', v') ∷ es) differ = rw (find-snoc_other es differ) refl

  pub find-snoc_old :
      {w : Ptr} (es : List Entry)
      → find sip key es ≡ some w
      → find sip key (es ++ ((k, v) ∷ [])) ≡ some w
  unfolding find
  find-snoc_old [] found = ground arith
  find-snoc_old ((k', v') ∷ es) found =
      elim (Bool-cases (runtime_hash sip k' == runtime_hash sip key)) [
        | inl e ↦ ground (arith, e)
        | inr e ↦ rw e (find-snoc_old es (ground (arith, e)))
      ]

module _ (sip : SipHash) {h : Heap} where
  pub buff_cmp_raw-KeyAt :
      {p : Ptr} {k : List ℕ} (key : List ℕ)
      → KeyAt h p k
      → buff_cmp_raw sip p (some key) h ≡ ok (runtime_hash sip k == runtime_hash sip key) h
  buff_cmp_raw-KeyAt key k =
      buff_cmp_raw_lem sip k.is key
      ∙ ap (λ bs. ok (runtime_hash sip bs == runtime_hash sip key) h) k.holds

  -- One round per node, and one more that finds the null pointer.
  find_loop-Entries :
      {stop p v : Ptr} {xs : Nodes} {es : List Entry} (key : List ℕ) (rounds : ℕ)
      → Seg h stop p xs
      → Holds h stop (ll_node null v)
      → Entries h (xs ++ ((stop, v) ∷ [])) es
      → length xs + 1 < rounds
      → find_loop sip key rounds p h ≡ ok (or_null (find sip key es)) h
  unfolding find_loop find
  find_loop-Entries key zero s e es room = ground arith
  find_loop-Entries key (suc zero) s e es room = ground arith
  find_loop-Entries key (suc (suc rounds)) nil e (entry {key = k} e' k' none_left) room =
      rw (not_null e, load_node-ok e, load_linked-ok e', buff_cmp_raw-KeyAt key k')
        (elim (Bool-cases (runtime_hash sip k == runtime_hash sip key)) [
          | inl t ↦ rw t refl
          | inr t ↦ rw t refl
        ])
  find_loop-Entries key (suc (suc rounds)) (cons e fresh s) end (entry {key = k} e' k' es) room =
      rw (not_null e, load_node-ok e, load_linked-ok e', buff_cmp_raw-KeyAt key k')
        (elim (Bool-cases (runtime_hash sip k == runtime_hash sip key)) [
          | inl t ↦ rw t refl
          | inr t ↦ rw t (find_loop-Entries key (suc rounds) s end es (ground arith))
        ])

-- What a lookup of a key that is not there leaves of the map: a list of keys reports no error.
abbrev pub miss : List Entry → Hmap → Hmap
miss [] m = failed "hmap_get" "key does not exist" error_key_mismatch m
miss (_ ∷ _) m = failed "hmap_get" "key does not match" error_key_mismatch m

abbrev pub missed : HmapBucket → List Entry → Hmap → Hmap
missed b es m = if b.is_complex then m else miss es m

abbrev pub answer : HmapBucket → List Entry → Option Ptr → Hmap → Heap → Run (Ptr × Hmap)
answer b es none m h = ok (null, missed b es m) h
answer b es (some v) m h = ok (v, m) h

-- On a map that takes accesses, at a bucket that stands for some entries, fewer than there are rounds,
-- `hmap_get` returns the value of the first whose key has the hash of the key given. If there is none it
-- returns NULL: with the error that the key does not exist at an empty bucket, with the error that it
-- does not match at a bucket of one key, and with no error at a list. Memory stays.
pub hmap_get_lem :
    (env : Env) {m : Hmap} {h : Heap} {key : List ℕ} {digest : ℕ} {bs : List HmapBucket}
    {b : HmapBucket} {self last : Ptr} {es : List Entry}
    → Reaches m h key digest bs
    → get_elem? bs (digest % m.capacity) ≡ some b
    → Slot h b self last es
    → length es < env.rounds
    → hmap_get env key m h ≡ answer b es (find env.sip key es) m h
unfolding find hmap_get hmap_complex_key_get_value linked_list_find
hmap_get_lem env r found (vacant s l plain empty bare) room =
    hmap_get-vacant env r found plain (ground arith) ∙ rw plain refl
hmap_get_lem env {key} r found (single {key = k} s l plain at value) room =
    hmap_get-key env r found plain at.is
    ∙ rw at.holds (elim (Bool-cases (runtime_hash env.sip k == runtime_hash env.sip key)) [
      | inl t ↦ rw (t, value) refl
      | inr t ↦ rw (t, plain) refl
    ])
hmap_get_lem env {m} {h} {key} {digest} {b} r found (chain {l} {front} {es} complex head end is at)
      room =
    let walk =
      find_loop-Entries env.sip key env.rounds is.chain is.back at
        (omega (arith, length-Entries at, length-append front ((l.last, _) ∷ []))) in
    rw
      (
        passes env r "hmap_get",
        hmap_hash-ok env r,
        load_bucket-ok (digest % m.capacity) r.array found,
        complex,
        head,
        load_list-ok is.header,
        walk,
      )
      (elim (Option-cases (find env.sip key es)) [ inl e ↦ rw e refl | inr (v, e) ↦ rw e refl ])
