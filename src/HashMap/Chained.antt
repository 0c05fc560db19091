-- ===== src/HashMap/Chained.antt =====
-- `hmap_complex_key_set_value` where there is room.
use neonrt.Base
use neonrt.Base.{
  ℕ, ◌+◌, ◌^◌, ◌≡◌, ◌≢◌, ◌<◌, refl, sym, ◌∙◌, true, false, none, some, List, [], ◌∷◌, ◌++◌, arith,
  ltb, ◌==◌, if◌then◌else◌, get_elem?, set-set, length, length-set, length-append,
}
use neonrt.Word.{add_size}
use neonrt.Memory.{Ptr, null, LinkedList, HmapBucket, buckets, Heap, ok}
use neonrt.Memory.Rules.{Holds}
use neonrt.Memory.Frame.{
  Frame, Frame-trans, Frame-fresh, Grows-trans, Grows-Frame, Grows-Holds, Grows-unused, Below,
  Roomy,
}
use neonrt.Buffer.Rules.{KeyAt}
use neonrt.Buffer.Roomy.{buff_new-BuffMade}
use neonrt.LinkedList.Seg.{Nodes}
use neonrt.LinkedList.Add.{IsList, nodes}
use neonrt.HashMap.{Hmap, Env}
use neonrt.HashMap.Chain.{hmap_complex_key_set_value}
use neonrt.HashMap.Lookup.{load_bucket-ok}
use neonrt.HashMap.Slot.{
  Entry, Entries, Slot, KeyAt-Frame, Entries-Frame, IsList-Frame, Owned, Holding,
}
use neonrt.HashMap.Push.{collided, push_pair-Pushed}
use neonrt.HashMap.Pair.{both, first_list, store_pair, first_list-Started, store_pair-Second}

-- From `h` to `h'` the bucket at `i`, whose list was at `self` and `last`, comes to stand for `es`. What
-- belongs to it is new, or belonged to it before.
pub record Changed (h h' : Heap) (array : Ptr) (bs : List HmapBucket) (i : ℕ) (self last : Ptr)
    (before : (Ptr → ℕ) → ℕ → Type 0) (es : List Entry) (top : Ptr) : Type 0 where
  pub bucket : HmapBucket
  pub header : Ptr
  pub end : Ptr
  pub array_at : Holds h' array (buckets (Base.set bs i bucket))
  pub slot : Slot h' bucket header end es
  pub frame : Frame h h' self last
  pub arrays :
      (q : Ptr) (ds : List HmapBucket)
      → q ≢ array
      → h q ≡ some (buckets ds)
      → h' q ≡ some (buckets ds)
  pub owned :
      (own : Ptr → ℕ) (k : ℕ)
      → before own k
      → ((a : Ptr) → h a ≡ none → own a ≡ k)
      → Holding own k slot
  pub fresh_header : header ≢ null → header ≢ self → h header ≡ none
  pub fresh_end : end ≢ null → h end ≡ none
  pub below : Below h' (top + 7)

pub record Chained (env : Env) (array : Ptr) (i : ℕ) (key : List ℕ) (value : Ptr) (m : Hmap)
    (h : Heap) (bs : List HmapBucket) (self last : Ptr) (before : (Ptr → ℕ) → ℕ → Type 0)
    (es : List Entry) (top : Ptr) : Type 0 where
  pub after : Heap
  pub runs : hmap_complex_key_set_value env array i key value m h ≡ ok (tt, collided m) after
  pub changed : Changed h after array bs i self last before es top

module _ (env : Env) {limit : Ptr} (roomy : Roomy env.alloc limit) (value : Ptr) (m : Hmap) where
  module _ (key : List ℕ) {h : Heap} {top : Ptr} (pos : 0 < top) (under : top + 6 < limit)
      (below : Below h top) {array : Ptr} {bs : List HmapBucket} {b : HmapBucket} (i : ℕ)
      (at : Holds h array (buckets bs)) (found : get_elem? bs i ≡ some b)
      (in_ : ltb i (length bs) ≡ true) where
    -- At a list the key is appended.
    pub set_value-chain :
        {self : Ptr} {l : LinkedList} {front : Nodes} {v : Ptr} {es : List Entry}
        → b.is_complex ≡ true
        → b.value ≡ self
        → IsList h self l front v
        → Entries h (nodes l front v) es
        → length es + 1 < 2 ^ 64
        → Chained env array i key value m h bs self l.last
            (λ own k. (own self ≡ k) × Owned own k (nodes l front v))
            (es ++ ((key, value) ∷ []))
            top
    unfolding hmap_complex_key_set_value
    set_value-chain {self} {l} complex head is entries room =
        let kb = buff_new-BuffMade key top roomy pos (omega arith) below in
        let grown = Grows-Frame null null kb.grows in
        let bucket : HmapBucket = record {
          key = b.key;
          value = self;
          value_len = add_size b.value_len 1;
          is_complex = true;
        } in
        let at1 = Grows-Holds kb.grows at in
        let p =
          push_pair-Pushed env roomy value m i bucket (omega arith) (omega arith) kb.below at1 in_
            kb.holds (IsList-Frame grown is.header.ne_null is.back.ne_null is)
            (Entries-Frame grown entries) room refl refl in
        record {
          after = p.after;
          runs = rw (kb.runs, load_bucket-ok i at1 found, complex, head) p.runs;
          changed = record {
            bucket = bucket;
            header = self;
            end = p.end;
            array_at = p.array_at;
            slot = p.slot;
            frame = Frame-trans (Grows-Frame self l.last kb.grows) p.frame;
            arrays = λ q ds ne e. p.arrays q ds ne (kb.grows.kept q _ e);
            owned = λ own k before fresh.
                p.owned own k before λ a unused. fresh a (Grows-unused a kb.grows unused);
            fresh_header = λ ne ne'. absurd (ne' refl);
            fresh_end = λ ne. Grows-unused p.end kb.grows p.fresh_end;
            below = λ q le. p.below q (omega arith);
          };
        }

    -- At one key a list of it and of the key given is made.
    pub set_value-single :
        {first_key : List ℕ} (self last : Ptr)
        → b.is_complex ≡ false
        → KeyAt h b.key first_key
        → Chained env array i key value m h bs self last
            (λ own k. Unit {0})
            ((first_key, b.value) ∷ (key, value) ∷ [])
            top
    unfolding hmap_complex_key_set_value
    set_value-single self last plain first_at =
        let kb = buff_new-BuffMade key top roomy pos (omega arith) below in
        let f =
          first_list-Started env roomy value m b (omega arith) (omega arith) kb.below
            (KeyAt-Frame (Grows-Frame null null kb.grows) first_at) in
        let start : hmap_complex_key_set_value env array i key value m h
            ≡ first_list env b (store_pair env array i b kb.self value) m kb.after =
          rw (kb.runs, load_bucket-ok i (Grows-Holds kb.grows at) found, plain) refl in
        let grows = Grows-trans kb.grows f.grows in
        let at1 = Grows-Holds grows at in
        let p =
          store_pair-Second env roomy value m b i kb.self key (omega arith) (omega arith) f.below
            at1 in_ (KeyAt-Frame (Grows-Frame null null f.grows) kb.holds) f.is f.entries in
        record {
          after = p.after;
          runs = start ∙ (f.runs (store_pair env array i b kb.self value) ∙ p.runs);
          changed = record {
            bucket = both b f.self;
            header = f.self;
            end = p.end;
            array_at = p.array_at;
            slot = p.slot;
            frame =
                Frame-fresh self last (Frame-trans (Grows-Frame f.self f.last grows) p.frame)
                  (Grows-unused f.self kb.grows f.unused_self)
                  (Grows-unused f.last kb.grows f.unused_last);
            arrays = λ q ds ne e. p.arrays q ds ne (grows.kept q _ e);
            owned = λ own k before fresh.
                p.owned own k
                  (
                    fresh f.self (Grows-unused f.self kb.grows f.unused_self),
                    (
                      fresh f.last (Grows-unused f.last kb.grows f.unused_last),
                      fresh f.first_value (Grows-unused f.first_value kb.grows f.unused_value),
                      refl,
                      tt,
                    ),
                  )
                  (λ a unused. fresh a (Grows-unused a grows unused));
            fresh_header = λ ne ne'. Grows-unused f.self kb.grows f.unused_self;
            fresh_end = λ ne. Grows-unused p.end grows p.fresh_end;
            below = λ q le. p.below q (omega arith);
          };
        }
