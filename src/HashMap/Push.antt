-- ===== src/HashMap/Push.antt =====
-- The end of `hmap_complex_key_set_value`.
use neonrt.Base
use neonrt.Base.{
  ℕ, ◌+◌, ◌^◌, ◌≡◌, ◌≢◌, ◌<◌, refl, sym, ◌∙◌, true, false, none, some, List, [], ◌∷◌, ◌++◌, arith,
  ltb, ◌==◌, if◌then◌else◌, get_elem?, set-set, length, length-set, length-append,
}
use neonrt.Word.{add_size}
use neonrt.Memory.{
  Ptr, null, LinkedList, HmapBucket, linked, buckets, Heap, write, ok, allocate, init,
}
use neonrt.Memory.Rules.{Holds, Holds-write, write_ne, allocate-ok, allocate_unused}
use neonrt.Memory.Frame.{
  Frame, Frame-trans, Frame-buckets, Grows-Frame, Grows-Holds, Grows-unused, Below, Below-rewrite,
  Roomy, gets, filled-Holds, filled-Below, filled-Grows, filled-init,
}
use neonrt.Buffer.Rules.{KeyAt}
use neonrt.LinkedList.{ll_add_node, append}
use neonrt.LinkedList.Seg.{Nodes}
use neonrt.LinkedList.Add.{IsList, nodes}
use neonrt.LinkedList.Roomy.{ll_add_node-Appended}
use neonrt.HashMap.{
  Hmap, HmapCmd, ◌>>=◌, ◌>>◌, lift, modify, Env, store_bucket, error_malloc_failed,
}
use neonrt.HashMap.Check.{hmap_set_error}
use neonrt.HashMap.Lookup.{store_bucket-ok}
use neonrt.HashMap.Slot.{
  Entry, Entries, Slot, chain, Holds-Frame, KeyAt-Frame, Entries-Frame, IsList-Frame, Entries-snoc,
  length-Entries, Owned, Holding, Owned-snoc, carries-unused,
}

abbrev pub collided : Hmap → Hmap
collided m = record m { collisions = add_size m.collisions 1 }

-- The end of `hmap_complex_key_set_value`: an entry for the key is appended to a list, and the bucket
-- is stored.
abbrev pub push_pair : Env → Ptr → ℕ → Ptr → Ptr → Ptr → HmapBucket → HmapCmd (Unit {0})
push_pair env array i key_buff value list bucket = do
  node_value ← lift (allocate env.alloc 16)
  if node_value == null
      then hmap_set_error "malloc failed" "hmap_complex_key_set_value" error_malloc_failed
      else do
        lift (init node_value (linked (record { key = key_buff; value = value })))
        lift (ll_add_node env.alloc list node_value append 0)
        lift (store_bucket array i bucket)
        modify collided

pub record Pushed (env : Env) (array : Ptr) (i : ℕ) (key_buff : Ptr) (key : List ℕ)
    (value list : Ptr) (bucket : HmapBucket) (m : Hmap) (h : Heap) (bs : List HmapBucket)
    (last : Ptr) (before : Nodes) (es : List Entry) (top : Ptr) : Type 0 where
  pub after : Heap
  pub end : Ptr
  pub runs : push_pair env array i key_buff value list bucket m h ≡ ok (tt, collided m) after
  pub array_at : Holds after array (buckets (Base.set bs i bucket))
  pub slot : Slot after bucket list end (es ++ ((key, value) ∷ []))
  pub frame : Frame h after list last
  pub arrays :
      (q : Ptr) (ds : List HmapBucket)
      → q ≢ array
      → h q ≡ some (buckets ds)
      → after q ≡ some (buckets ds)
  pub owned :
      (own : Ptr → ℕ) (k : ℕ)
      → (own list ≡ k) × Owned own k before
      → ((a : Ptr) → h a ≡ none → own a ≡ k)
      → Holding own k slot
  pub fresh_end : h end ≡ none
  pub below : Below after (top + 2)

module _ (env : Env) {limit : Ptr} (roomy : Roomy env.alloc limit) (value : Ptr) (m : Hmap) where
  pub push_pair-Pushed :
      {h : Heap} {top array : Ptr} {bs : List HmapBucket} {q : Ptr} {key : List ℕ} {self : Ptr}
      {l : LinkedList} {front : Nodes} {v : Ptr} {es : List Entry} (i : ℕ) (bucket : HmapBucket)
      → 0 < top
      → top + 1 < limit
      → Below h top
      → Holds h array (buckets bs)
      → ltb i (length bs) ≡ true
      → KeyAt h q key
      → IsList h self l front v
      → Entries h (nodes l front v) es
      → length es + 1 < 2 ^ 64
      → bucket.is_complex ≡ true
      → bucket.value ≡ self
      → Pushed env array i q key value self bucket m h bs l.last (nodes l front v) es top
  push_pair-Pushed {h} {top} {array} {bs} {q} {key} {self} {l} {front} {v} {es} i bucket pos under
        below at in_ key_at is entries room complex head =
      let under0 : top < limit = omega arith in
      let pair = linked (record { key = q; value = value }) in
      let got = gets roomy pos under0 below 16 in
      let grows = filled-Grows roomy pos under0 below 16 pair in
      let list = IsList-Frame (Grows-Frame null null grows) is.header.ne_null is.back.ne_null is in
      let short : length front + 2 < 2 ^ 64 =
        omega (arith, length-Entries entries, length-append front ((l.last, v) ∷ [])) in
      let a =
        ll_add_node-Appended (env.alloc.malloc 16 h) (top + 1) roomy (omega arith) under
          (filled-Below roomy pos under0 below 16 pair) list short in
      let at3 : Holds a.after array (buckets bs) = record {
        ne_null = at.ne_null;
        at = a.arrays _ _ (Grows-Holds grows at).at;
      } in
      let stored = Frame-buckets null null (buckets (Base.set bs i bucket)) at3 in
      let late =
        Frame-trans a.frame (Frame-buckets self l.last (buckets (Base.set bs i bucket)) at3) in
      let frame = Frame-trans (Grows-Frame self l.last grows) late in
      record {
        after = write a.after array (some (buckets (Base.set bs i bucket)));
        end = a.last;
        runs =
            rw
              (
                allocate-ok env.alloc 16 h got,
                got,
                filled-init roomy pos under0 below 16 pair (omega arith),
                a.runs,
                store_bucket-ok i bucket at3 in_,
              )
              refl;
        array_at = Holds-write at3 _;
        slot =
            chain complex head refl (IsList-Frame stored a.is.header.ne_null a.is.back.ne_null a.is)
              (Entries-snoc a.last (Entries-Frame frame entries)
                (Holds-Frame late (filled-Holds roomy pos under0 below 16 pair) refl)
                (KeyAt-Frame frame key_at));
        frame = frame;
        arrays = λ q' ds ne e. write_ne a.after array _ q' ne ∙ a.arrays q' ds (grows.kept q' _ e);
        owned = λ own k (o, os) fresh.
            let unused = allocate_unused env.alloc 16 h got in
            (
              o,
              Owned-snoc own k a.last (env.alloc.malloc 16 h) (nodes l front v) os
                  (fresh a.last (Grows-unused a.last grows a.unused_last))
                  (fresh (env.alloc.malloc 16 h) unused)
                  (carries-unused (env.alloc.malloc 16 h) entries unused),
            );
        fresh_end = Grows-unused a.last grows a.unused_last;
        below = λ r le. Below-rewrite _ a.below at3 r (omega arith);
      }
