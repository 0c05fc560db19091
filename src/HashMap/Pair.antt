-- ===== src/HashMap/Pair.antt =====
-- `hmap_complex_key_set_value` at a bucket of one key: its list is made, and the key follows.
use neonrt.Base
use neonrt.Base.{
  ℕ, ◌+◌, ◌^◌, ◌≡◌, ◌≢◌, ◌<◌, refl, sym, ◌∙◌, true, false, none, some, List, [], ◌∷◌, ◌++◌, arith,
  ltb, ◌==◌, if◌then◌else◌, get_elem?, set-set, length, length-set, length-append,
}
use neonrt.Word.{add_size}
use neonrt.Memory.{Ptr, null, HmapBucket, linked, buckets, Heap, ok, allocate, init}
use neonrt.Memory.Rules.{Holds, Holds-write, write_ne, allocate-ok, allocate_unused}
use neonrt.Memory.Frame.{
  Frame, Frame-trans, Frame-buckets, Grows, Grows-trans, Grows-Frame, Grows-Holds, Grows-unused,
  unused-rewrite, Below, Below-rewrite, Roomy, gets, filled-Holds, filled-Below, filled-Grows,
  filled-init,
}
use neonrt.Buffer.Rules.{KeyAt}
use neonrt.LinkedList.{ll_new}
use neonrt.LinkedList.Add.{IsList}
use neonrt.LinkedList.Roomy.{ll_new-ListMade, one_node}
use neonrt.HashMap.{Hmap, HmapCmd, ◌>>=◌, ◌>>◌, lift, Env, store_bucket, error_malloc_failed}
use neonrt.HashMap.Check.{hmap_set_error}
use neonrt.HashMap.Lookup.{store_bucket-ok}
use neonrt.HashMap.Slot.{
  Entry, Entries, none_left, entry, Slot, KeyAt-Frame, Entries-Frame, IsList-Frame, length-Entries,
  Owned, Holding,
}
use neonrt.HashMap.Push.{collided, push_pair, push_pair-Pushed}

-- The bucket of one key while its list is made, and once it is.
abbrev pub begun : HmapBucket → Ptr → HmapBucket
begun b list = record b { value = list }

abbrev pub both : HmapBucket → Ptr → HmapBucket
both b list = record {
  key = null;
  value = list;
  value_len = add_size b.value_len 2;
  is_complex = true;
}

-- The start of `hmap_complex_key_set_value` at a bucket of one key: a list of its entry.
abbrev pub first_list : Env → HmapBucket → (Ptr → HmapCmd (Unit {0})) → HmapCmd (Unit {0})
first_list env b rest = do
  first_value ← lift (allocate env.alloc 16)
  if first_value == null
      then hmap_set_error "malloc failed" "hmap_complex_key_set_value" error_malloc_failed
      else do
        lift (init first_value (linked (record { key = b.key; value = b.value })))
        list ← lift (ll_new env.alloc first_value)
        rest list

pub record Started (env : Env) (b : HmapBucket) (key : List ℕ) (m : Hmap) (h : Heap) (top : Ptr)
    : Type 0 where
  pub self : Ptr
  pub last : Ptr
  pub first_value : Ptr
  pub after : Heap
  pub runs : (rest : Ptr → HmapCmd (Unit {0})) → first_list env b rest m h ≡ rest self m after
  pub is : IsList after self (one_node last) [] first_value
  pub entries : Entries after ((last, first_value) ∷ []) ((key, b.value) ∷ [])
  pub unused_value : h first_value ≡ none
  pub unused_self : h self ≡ none
  pub unused_last : h last ≡ none
  pub grows : Grows h after
  pub below : Below after (top + 3)

abbrev pub store_pair : Env → Ptr → ℕ → HmapBucket → Ptr → Ptr → Ptr → HmapCmd (Unit {0})
store_pair env array i b key_buff value list =
    lift (store_bucket array i (begun b list))
    >> push_pair env array i key_buff value list (both b list)

pub record Second (env : Env) (array : Ptr) (i : ℕ) (b : HmapBucket) (key_buff : Ptr) (key : List ℕ)
    (value list : Ptr) (m : Hmap) (h : Heap) (bs : List HmapBucket) (last v : Ptr) (es : List Entry)
    (top : Ptr) : Type 0 where
  pub after : Heap
  pub end : Ptr
  pub runs : store_pair env array i b key_buff value list m h ≡ ok (tt, collided m) after
  pub array_at : Holds after array (buckets (Base.set bs i (both b list)))
  pub slot : Slot after (both b list) list end (es ++ ((key, value) ∷ []))
  pub frame : Frame h after list last
  pub arrays :
      (q : Ptr) (ds : List HmapBucket)
      → q ≢ array
      → h q ≡ some (buckets ds)
      → after q ≡ some (buckets ds)
  pub owned :
      (own : Ptr → ℕ) (k : ℕ)
      → (own list ≡ k) × Owned own k ((last, v) ∷ [])
      → ((a : Ptr) → h a ≡ none → own a ≡ k)
      → Holding own k slot
  pub fresh_end : h end ≡ none
  pub below : Below after (top + 2)

module _ (env : Env) {limit : Ptr} (roomy : Roomy env.alloc limit) (value : Ptr) (m : Hmap) where
  pub first_list-Started :
      {h : Heap} {top : Ptr} {key : List ℕ} (b : HmapBucket)
      → 0 < top
      → top + 2 < limit
      → Below h top
      → KeyAt h b.key key
      → Started env b key m h top
  first_list-Started {h} {top} b pos under below key_at =
      let under0 : top < limit = omega arith in
      let pair = linked (record { key = b.key; value = b.value }) in
      let got = gets roomy pos under0 below 16 in
      let grows = filled-Grows roomy pos under0 below 16 pair in
      let pair_at = filled-Holds roomy pos under0 below 16 pair in
      let l =
        ll_new-ListMade (env.alloc.malloc 16 h) (top + 1) roomy (omega arith) (omega arith)
          (filled-Below roomy pos under0 below 16 pair) pair_at.ne_null in
      let all = Grows-trans grows l.grows in
      record {
        self = l.self;
        last = l.last;
        first_value = env.alloc.malloc 16 h;
        after = l.after;
        runs = λ rest.
            rw
              (
                allocate-ok env.alloc 16 h got,
                got,
                filled-init roomy pos under0 below 16 pair (omega arith),
                l.runs,
              )
              refl;
        is = l.is;
        entries =
            entry (Grows-Holds l.grows pair_at) (KeyAt-Frame (Grows-Frame null null all) key_at)
              none_left;
        unused_value = allocate_unused env.alloc 16 h got;
        unused_self = Grows-unused l.self grows l.unused_self;
        unused_last = Grows-unused l.last grows l.unused_last;
        grows = all;
        below = λ q le. l.below q (omega arith);
      }

  pub store_pair-Second :
      {h : Heap} {top array : Ptr} {bs : List HmapBucket} {self last v : Ptr} {es : List Entry}
      (b : HmapBucket) (i : ℕ) (q : Ptr) (key : List ℕ)
      → 0 < top
      → top + 1 < limit
      → Below h top
      → Holds h array (buckets bs)
      → ltb i (length bs) ≡ true
      → KeyAt h q key
      → IsList h self (one_node last) [] v
      → Entries h ((last, v) ∷ []) es
      → Second env array i b q key value self m h bs last v es top
  store_pair-Second {h} {top} {array} {bs} {self} {last} b i q key pos under below at in_ key_at is
        entries =
      let stored = Frame-buckets null null (buckets (Base.set bs i (begun b self))) at in
      let spared = Frame-buckets self last (buckets (Base.set bs i (begun b self))) at in
      let p =
        push_pair-Pushed env roomy value m i (both b self) pos under
          (Below-rewrite (buckets (Base.set bs i (begun b self))) below at)
          (Holds-write at (buckets (Base.set bs i (begun b self))))
          (ground (arith, length-set bs i (begun b self))) (KeyAt-Frame stored key_at)
          (IsList-Frame stored is.header.ne_null is.back.ne_null is) (Entries-Frame stored entries)
          (omega (arith, length-Entries entries)) refl refl in
      record {
        after = p.after;
        end = p.end;
        runs = rw (store_bucket-ok i (begun b self) at in_) p.runs;
        array_at = rw (sym (set-set bs i (begun b self) (both b self))) p.array_at;
        slot = p.slot;
        frame = Frame-trans spared p.frame;
        arrays = λ q' ds ne e. p.arrays q' ds ne (write_ne h array _ q' ne ∙ e);
        owned = λ own k before fresh.
            p.owned own k before λ a none_there. fresh a (unused-rewrite h array a _ none_there);
        fresh_end = unused-rewrite h array p.end _ p.fresh_end;
        below = p.below;
      }
