-- ===== src/HashMap/Settle.antt =====
-- Where `hmap_rehash` puts a key in the new array.
use neonrt.Base
use neonrt.Base.{
  ℕ, ◌+◌, ◌^◌, ◌≡◌, ◌≢◌, ◌<◌, refl, sym, ap, ◌∙◌, true, false, ◌&&◌, ◌||◌, not, some, none, List,
  [], ◌∷◌, ◌++◌, arith, ◌==◌, ltb, if◌then◌else◌, length, get_elem?,
}
use neonrt.Word.{add_size}
use neonrt.Memory.{Ptr, null, HmapBucket, buff, buckets, Heap, write, ok}
use neonrt.Memory.Rules.{Holds, not_null, Holds-write, Holds-write_ne, write_ne}
use neonrt.Memory.Frame.{Frame-trans, Frame-buckets, Below, Below-rewrite, Roomy, unused-rewrite}
use neonrt.Buffer.Rules.{KeyAt}
use neonrt.HashMap.{Hmap, HmapCmd, ◌>>=◌, lift, Env, store_bucket}
use neonrt.HashMap.Chain.{hmap_complex_key_set_value}
use neonrt.HashMap.Resize.{borrow_key, plain_bucket, hmap_rehash_complex}
use neonrt.HashMap.Lookup.{load_bucket-ok, store_bucket-ok}
use neonrt.HashMap.Slot.{
  Entry, Slot, vacant, single, chain, Holding, KeyAt-Frame, Entries-Frame, IsList-Frame,
}
use neonrt.HashMap.Chained.{Changed, set_value-chain, set_value-single}
use neonrt.HashMap.Loan.{loan, loan-Frame, borrow_key-ok}

-- No value is a null pointer.
abbrev pub Valued : List Entry → Type 0
Valued [] = Unit {0}
Valued ((key, v) ∷ es) = (v ≢ null) × Valued es

-- An empty bucket takes the key itself, and another bucket gets a copy of it in its list.
abbrev pub settle : Env → Ptr → ℕ → Ptr → Ptr → HmapBucket → HmapCmd (Unit {0})
settle env array i kp v b =
    if b.key == null && b.value == null
    then lift (store_bucket array i (plain_bucket kp v))
    else do key ← borrow_key kp; hmap_complex_key_set_value env array i key v

-- A change of the bucket at `i` that appends an entry.
pub record Settled (env : Env) (array : Ptr) (i : ℕ) (kp v : Ptr) (key : List ℕ) (b : HmapBucket)
    (m : Hmap) (h : Heap) (bs : List HmapBucket) (header end : Ptr)
    (before : (Ptr → ℕ) → ℕ → Type 0) (es : List Entry) (top : Ptr) : Type 0 where
  pub after : Heap
  pub collisions : ℕ
  pub runs : settle env array i kp v b m h ≡ ok (tt, record m { collisions = collisions }) after
  pub changed : Changed h after array bs i header end before (es ++ ((key, v) ∷ [])) top

-- A change after a loan is one from before it.
Changed-loan :
    {h h' : Heap} {array : Ptr} {bs : List HmapBucket} {i : ℕ} {self last : Ptr}
    {before : (Ptr → ℕ) → ℕ → Type 0} {es : List Entry} {top p : Ptr} {key : List ℕ}
    (k : KeyAt h p key)
    → Changed (loan p k) h' array bs i self last before es top
    → Changed h h' array bs i self last before es top
Changed-loan {h} {self} {last} {p} k c = record {
  bucket = c.bucket;
  header = c.header;
  end = c.end;
  array_at = c.array_at;
  slot = c.slot;
  frame = Frame-trans (loan-Frame k self last) c.frame;
  arrays = λ q ds ne e.
      c.arrays q ds ne (write_ne h p _ q (λ z. ground (arith, e, k.is.struct.at, ap h z)) ∙ e);
  owned = λ own n before fresh. c.owned own n before λ a e. fresh a (unused-rewrite h p a _ e);
  fresh_header = λ ne ne'. unused-rewrite h p c.header _ (c.fresh_header ne ne');
  fresh_end = λ ne. unused-rewrite h p c.end _ (c.fresh_end ne);
  below = c.below;
}

module _ (env : Env) {limit : Ptr} (roomy : Roomy env.alloc limit) (m : Hmap) {h : Heap} {top : Ptr}
    (pos : 0 < top) (under : top + 6 < limit) (below : Below h top) {array : Ptr}
    {bs : List HmapBucket} (at : Holds h array (buckets bs)) {b : HmapBucket} (i : ℕ)
    (found : get_elem? bs i ≡ some b) (in_ : ltb i (length bs) ≡ true) (v : Ptr) where
  pub settle-Slot :
      {kp : Ptr} {key : List ℕ} {header end : Ptr} {es : List Entry} (k : KeyAt h kp key)
      → (s : Slot h b header end es) → length es + 1 < 2 ^ 64
      → Settled env array i kp v key b m h bs header end (λ own n. Holding own n s) es top
  settle-Slot {kp} {key} {header} {end} k (vacant s l plain empty bare) room =
      let bucket = plain_bucket kp v in
      let stored = Frame-buckets header end (buckets (Base.set bs i bucket)) at in
      record {
        after = write h array (some (buckets (Base.set bs i bucket)));
        collisions = m.collisions;
        runs = rw (empty, bare, store_bucket-ok i bucket at in_) refl;
        changed = record {
          bucket = bucket;
          header = header;
          end = end;
          array_at = Holds-write at _;
          slot = single s l refl (KeyAt-Frame stored k) refl;
          frame = stored;
          arrays = λ q ds ne e. write_ne h array _ q ne ∙ e;
          owned = λ own n before fresh. before;
          fresh_header = λ ne ne'. absurd (ne s);
          fresh_end = λ ne. absurd (ne l);
          below = λ q le. Below-rewrite _ below at q (omega arith);
        };
      }
  settle-Slot {kp} {key} {header} {end} k (single {key = first_key} s l plain key_at is) room =
      let f = loan-Frame k null null in
      let at1 = Holds-write_ne kp _ at (λ z. ground (arith, at.at, k.is.struct.at, ap h z)) in
      let c =
        set_value-single env roomy v m key pos under (Below-rewrite (buff _) below k.is.struct) i
          at1 found in_ header end plain (KeyAt-Frame f key_at) in
      record {
        after = c.after;
        collisions = add_size m.collisions 1;
        runs = rw (not_null key_at.is.struct, borrow_key-ok m k, c.runs) refl;
        changed = Changed-loan k (rw (sym is) c.changed);
      }
  settle-Slot {kp} {key} {header} {end} k
        (chain {v = w} {l} {front} {es} complex head last is entries) room =
      let f = loan-Frame k null null in
      let at1 = Holds-write_ne kp _ at (λ z. ground (arith, at.at, k.is.struct.at, ap h z)) in
      let c =
        set_value-chain env roomy v m key pos under (Below-rewrite (buff _) below k.is.struct) i at1
          found in_ complex head (IsList-Frame f is.header.ne_null is.back.ne_null is)
          (Entries-Frame f entries) room in
      let some_list : (b.value == null) ≡ false = ground (arith, head, is.header.ne_null) in
      let full : (b.key == null && b.value == null) ≡ false = ground arith in
      record {
        after = c.after;
        collisions = add_size m.collisions 1;
        runs = rw (full, borrow_key-ok m k, c.runs) refl;
        changed = Changed-loan k (rw (sym last) c.changed);
      }

  -- So does `hmap_rehash_complex`.
  pub rehash_complex-settle :
      (kp : Ptr) {header end : Ptr} {es : List Entry}
      → Slot h b header end es
      → Valued es
      → hmap_rehash_complex env array i (record { key = kp; value = v }) m h
        ≡ settle env array i kp v b m h
  unfolding hmap_rehash_complex
  rehash_complex-settle kp (vacant s l plain empty bare) some_value =
      rw (load_bucket-ok i at found, plain, empty, bare) refl
  rehash_complex-settle kp (single s l plain key_at is) some_value =
      let used : (b.value == null) ≡ false = ground (arith, some_value.0, is) in
      rw (load_bucket-ok i at found, plain, not_null key_at.is.struct, used) refl
  rehash_complex-settle kp (chain complex head last is entries) some_value =
      let some_list : (b.value == null) ≡ false = ground (arith, head, is.header.ne_null) in
      let full : (b.key == null && b.value == null) ≡ false = ground arith in
      rw (load_bucket-ok i at found, complex, full) refl
