-- ===== src/HashMap/FreeBuckets.antt =====
-- `hmap_free_buckets` and `hmap_free`.
use neonrt.Base.{
  ℕ, zero, suc, ◌+◌, ◌≡◌, ◌≢◌, ◌<◌, refl, ap, subst, ◌∙◌, none, List, [], ◌∷◌, arith, ◌==◌,
  if◌then◌else◌, Bool-cases, inl, inr, length, length-append,
}
use neonrt.Memory.{Ptr, HmapBucket, buckets, raw, Heap, write, ok}
use neonrt.Memory.Rules.{Holds, load_list-ok, free-ok, write_ne, write_same, write-none}
use neonrt.Buffer.Rules.{KeyAt}
use neonrt.LinkedList.{ll_free}
use neonrt.HashMap.{Hmap, HmapCmd, pure, ◌>>=◌, ◌>>◌, lift, Env}
use neonrt.HashMap.Resize.{free_entries, free_bucket_loop, hmap_free_buckets}
use neonrt.HashMap.Table.{hmap_free}
use neonrt.HashMap.Lookup.{load_bucket-ok}
use neonrt.HashMap.Slot.{Entry, Slot, vacant, single, chain, Holding, KeyAt-write, length-Entries}
use neonrt.HashMap.Represent.{Contents, Place, Table, Represents}
use neonrt.HashMap.Discard.{free_entries-ok, ll_free-ok}
use neonrt.HashMap.Freed.{
  Freed, Freed-trans, Gone, Gone-map, Slot-Freed, KeyAt-Freed, discarded-Freed, left_over,
}
use neonrt.Memory.{load_list}

-- What `free_bucket_loop` does at one bucket.
abbrev free_list : ℕ → HmapBucket → HmapCmd (Unit {0})
free_list rounds b =
    if b.is_complex
    then (do
      l ← lift (load_list b.value)
      lift (free_entries rounds l.first)
      lift (ll_free rounds b.value))
    else pure tt

record ListFreed (rounds : ℕ) (m : Hmap) (own : Ptr → ℕ) (k : ℕ) {h : Heap} {b : HmapBucket}
    {header end : Ptr} {es : List Entry} (s : Slot h b header end es) : Type 0 where
  after : Heap
  runs : free_list rounds b m h ≡ ok (tt, m) after
  freed : Freed own k (k + 1) h after
  gone : Gone after s

nothing-Freed : (own : Ptr → ℕ) (lo hi : ℕ) (h : Heap) → Freed own lo hi h h
nothing-Freed own lo hi h = record {
  kept = λ a o kind e. e;
  other = λ a out. refl;
  unused = λ a e. e;
}

free_list-ListFreed :
    (rounds : ℕ) (m : Hmap) (own : Ptr → ℕ) (k : ℕ) {h : Heap} {b : HmapBucket} {header end : Ptr}
    {es : List Entry} (s : Slot h b header end es)
    → Holding own k s
    → length es < rounds
    → ListFreed rounds m own k s
free_list-ListFreed rounds m own k {h} (vacant s l plain empty bare) held few = record {
  after = h;
  runs = rw plain refl;
  freed = nothing-Freed own k (k + 1) h;
  gone = tt;
}
free_list-ListFreed rounds m own k {h} (single s l plain key_at is) held few = record {
  after = h;
  runs = rw plain refl;
  freed = nothing-Freed own k (k + 1) h;
  gone = tt;
}
free_list-ListFreed rounds m own k {h} {header} (chain {v} {l} {front} complex head end is entries)
      (o, owned) few =
    let few' : length front + 1 < rounds =
      omega (arith, few, length-Entries entries, length-append front ((l.last, v) ∷ [])) in
    let (freed, none_left, gone) = discarded-Freed own k rounds is entries owned few' o in
    record {
      after = left_over own k rounds is entries owned few';
      runs =
          rw
            (
              complex,
              head,
              load_list-ok is.header,
              free_entries-ok own k rounds is entries owned few',
              ll_free-ok own k rounds is entries owned few',
            )
            refl;
      freed = freed;
      gone = (none_left, gone);
    }

module _ (rounds : ℕ) (own : Ptr → ℕ) {h : Heap} {array : Ptr} {bs : List HmapBucket} {n base : ℕ}
    {contents : Contents} (at : Holds h array (buckets bs)) (t : Table h bs n base own contents)
    (few : (k : ℕ) → length (contents k) < rounds) where
  -- The list of the bucket at `j` is no longer in use.
  abbrev pub ListGone : Heap → ℕ → Type 0
  ListGone g j =
      (p : Place h bs j (t.headers j) (t.ends j) (contents j) own (base + j)) × Gone g p.slot

  record LoopFreed (left i : ℕ) (m : Hmap) (g : Heap) : Type 0 where
    after : Heap
    runs : free_bucket_loop rounds array left i m g ≡ ok (tt, m) after
    freed : Freed own base (base + n) h after
    gone : (j : ℕ) → j < n → ListGone after j

  free_bucket_loop-LoopFreed :
      (left i : ℕ) (m : Hmap) {g : Heap}
      → i + left ≡ n
      → Freed own base (base + i) h g
      → ((j : ℕ) → j < i → ListGone g j)
      → LoopFreed left i m g
  unfolding free_bucket_loop
  free_bucket_loop-LoopFreed zero i m {g} all freed gone =
      let e : i ≡ n = omega (arith, all) in
      record {
        after = g;
        runs = refl;
        freed = subst (λ (x : ℕ). Freed own base (base + x) h g) e freed;
        gone = λ j lt. gone j (omega (arith, e, lt));
      }
  free_bucket_loop-LoopFreed (suc left) i m {g} all freed gone =
      let lt : i < n = omega (arith, all) in
      let p = t.places i lt in
      let at' : Holds g array (buckets bs) = record {
        ne_null = at.ne_null;
        at = freed.kept _ _ refl at.at;
      } in
      let (s, keep, back) = Slot-Freed freed (base + i) (ground arith) p.slot p.owned in
      let f = free_list-ListFreed rounds m own (base + i) s (keep own (base + i) p.owned) (few i) in
      let same : base + i + 1 ≡ base + (i + 1) = omega arith in
      let freed' : Freed own base (base + (i + 1)) h f.after =
        subst (λ (x : ℕ). Freed own base x h f.after) same
          (Freed-trans (omega arith) (omega arith) freed f.freed) in
      let rest = free_bucket_loop-LoopFreed left (i + 1) m (omega (arith, all)) freed' (λ j lt'.
        elim (Bool-cases (j == i)) [
          | inl e ↦
              let e' : i ≡ j = ground arith in subst (ListGone f.after) e' (p, back f.after f.gone)
          | inr ne ↦
              let (q, gone') = gone j (ground arith) in (q, Gone-map q.slot f.freed.unused gone')
        ]) in
      record {
        after = rest.after;
        runs = rw (load_bucket-ok i at' p.found, f.runs) rest.runs;
        freed = rest.freed;
        gone = rest.gone;
      }

  -- A run of `hmap_free_buckets`, but for the release of the array at its end.
  pub record Swept (env : Env) (m : Hmap) : Type 0 where
    pub swept : Heap
    pub runs : hmap_free_buckets env array n m h ≡ ok (tt, m) (write swept array none)
    pub freed : Freed own base (base + n) h swept
    pub gone : (j : ℕ) → j < n → ListGone swept j

  pub hmap_free_buckets-Swept : (env : Env) (m : Hmap) → env.rounds ≡ rounds → Swept env m
  unfolding hmap_free_buckets
  hmap_free_buckets-Swept env m same =
      let s =
        free_bucket_loop-LoopFreed n 0 m {g = h} (omega arith) (nothing-Freed own base (base + 0) h)
          (λ j lt. absurd (omega arith)) in
      let at' : Holds s.after array (buckets bs) = record {
        ne_null = at.ne_null;
        at = s.freed.kept _ _ refl at.at;
      } in
      record {
        swept = s.after;
        runs = rw (same, s.runs, free-ok at') refl;
        freed = s.freed;
        gone = s.gone;
      }

-- A run of `hmap_free`: the struct of the map, its array and its lists are no longer in use, and every
-- key is where it was.
pub record Released (env : Env) (m : Hmap) {h : Heap} {contents : Contents}
    (r : Represents m h contents) : Type 0 where
  pub after : Heap
  pub runs : hmap_free env m h ≡ ok (tt, m) after
  pub struct_gone : after m.self ≡ none
  pub array_gone : after m.bucket_array ≡ none
  pub lists_gone :
      (j : ℕ)
      → j < m.capacity
      → (p : Place h r.bs j (r.headers j) (r.ends j) (contents j) r.own (0 + j)) × Gone after p.slot
  pub keys_left : (p : Ptr) (key : List ℕ) → KeyAt h p key → KeyAt after p key

-- Take a map whose buckets stand for the entries given, with fewer entries in each bucket than there
-- are rounds. `hmap_free` ends without a fault: the struct,
-- the bucket array, and the header, the nodes and the entries of every list are freed, each once,
-- and the buffers of all keys are still allocated.
pub hmap_free_lem :
    (env : Env) (m : Hmap) {h : Heap} {contents : Contents} (r : Represents m h contents)
    → ((k : ℕ) → length (contents k) < env.rounds)
    → Released env m r
unfolding hmap_free
hmap_free_lem env m {h} r few =
    let s = hmap_free_buckets-Swept env.rounds r.own r.array r.table few env m refl in
    let ne : m.self ≢ m.bucket_array = λ e. ground (arith, r.struct.at, r.array.at, ap h e) in
    let array_at : Holds s.swept m.bucket_array (buckets r.bs) = record {
      ne_null = r.array.ne_null;
      at = s.freed.kept _ _ refl r.array.at;
    } in
    let h2 = write s.swept m.bucket_array none in
    let struct_at : Holds h2 m.self (raw 352) = record {
      ne_null = r.struct.ne_null;
      at = write_ne s.swept m.bucket_array none m.self ne ∙ s.freed.kept _ _ refl r.struct.at;
    } in
    let f1 = write-none s.swept m.bucket_array in
    let f2 = write-none h2 m.self in
    record {
      after = write h2 m.self none;
      runs = rw (s.runs, free-ok struct_at) refl;
      struct_gone = write_same h2 m.self none;
      array_gone = f2 m.bucket_array (write_same s.swept m.bucket_array none);
      lists_gone =
          λ j lt. let (p, gone) = s.gone j lt in (p, Gone-map p.slot (λ a e. f2 a (f1 a e)) gone);
      keys_left = λ p key k.
          KeyAt-write (raw 352) none struct_at (λ b e. ground (arith, e)) (λ b e. ground (arith, e))
            (KeyAt-write (buckets r.bs) none array_at (λ b e. ground (arith, e))
              (λ b e. ground (arith, e)) (KeyAt-Freed s.freed k));
    }
