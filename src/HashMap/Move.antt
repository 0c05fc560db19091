-- ===== src/HashMap/Move.antt =====
-- The buckets of an old array, lists among them, as `hmap_rehash` moves them to a new one.
use neonrt.Base.{
  ℕ, zero, suc, ◌+◌, ◌*◌, ◌%◌, ◌^◌, ◌≡◌, ◌≢◌, ◌≤◌, ◌<◌, refl, sym, true, false, ◌&&◌, some, List,
  [], ◌∷◌, arith, ◌==◌, ltb, length,
}
use neonrt.Memory.{Ptr, null, HmapBucket, Heap, Run, ok}
use neonrt.Memory.Rules.{not_null, load_node-ok, load_list-ok, load_linked-ok}
use neonrt.Memory.Frame.{Roomy}
use neonrt.Buffer.Rules.{KeyAt}
use neonrt.HashMap.{Hmap, Env}
use neonrt.HashMap.Resize.{hmap_hash_private, rehash_list, rehash_bucket}
use neonrt.HashMap.Resize.{hmap_rehash_complex}
use neonrt.HashMap.Lookup.{load_bucket-ok}
use neonrt.HashMap.Slot.{Entry, Slot, vacant, single, chain, Holding, KeyAt-Frame}
use neonrt.HashMap.Represent.{Contents, claim}
use neonrt.HashMap.Loan.{loan, loan-Frame, borrow_key-ok}
use neonrt.HashMap.Walk.{Walk, done, step, Walk-Frame, Seg-Walk}
use neonrt.HashMap.Arrays.{Places, Arrays, Arrays-loan, Arrays-Changed, Walk-Changed, Arrays-top}
use neonrt.HashMap.Settle.{Valued, settle, settle-Slot, rehash_complex-settle}
use neonrt.HashMap.Scatter.{push, scatter_list, Fits, Fits-push, Valued-push}

-- A run of a part of `hmap_rehash`, after which the new array stands for `now`.
pub record Moved (run : Run (Unit {0} × Hmap)) (m : Hmap) (a : Places) (h : Heap) (own : Ptr → ℕ)
    (now : Contents) (top : Ptr) : Type 0 where
  pub after : Heap
  pub collisions : ℕ
  pub runs : run ≡ ok (tt, record m { collisions = collisions }) after
  pub own' : Ptr → ℕ
  pub arrays : Arrays a own' after now top
  pub walks :
      (j : ℕ) (p : Ptr) (es : List Entry)
      → a.new_cap ≤ j
      → Walk h own j p es
      → Walk after own' j p es

module _ (env : Env) {limit : Ptr} (roomy : Roomy env.alloc limit) (m : Hmap) (a : Places)
    (digest : List ℕ → ℕ) (hashes : (key : List ℕ) → m.hash_fn key m.seed ≡ some (digest key))
    (some_buckets : a.new_cap ≢ 0) (differ : a.old ≢ a.new) where
  -- A key that has been borrowed and hashed comes to its bucket.
  module _ (c : ℕ) {own : Ptr → ℕ} {h : Heap} {now : Contents} {top : Ptr}
      (w : Arrays a own h now top) {kp : Ptr} {key : List ℕ} (k : KeyAt h kp key) (v : Ptr)
      (pos : 0 < top) (under : top + 7 ≤ limit)
      (room : length (now (digest key % a.new_cap)) + 1 < 2 ^ 64) where
    index_in : digest key % a.new_cap < a.new_cap
    index_in = ground (arith, some_buckets)

    abbrev lent_arrays : Arrays a own (loan kp k) now top
    lent_arrays = Arrays-loan a k w

    abbrev target : HmapBucket
    target = (lent_arrays.news.places (digest key % a.new_cap) index_in).bucket

    entry-Moved :
        Moved
          (settle env a.new
            (digest key % a.new_cap)
            kp
            v
            target
            (record m { collisions = c })
            (loan kp k))
          m
          a
          h
          own
          (push digest a.new_cap key v now)
          (top + 7)
    entry-Moved =
        let i = digest key % a.new_cap in
        let p = lent_arrays.news.places i index_in in
        let in_ : ltb i (length lent_arrays.nb) ≡ true =
          ground (arith, lent_arrays.news.sized, index_in) in
        let s =
          settle-Slot env roomy (record m { collisions = c }) pos (omega arith) lent_arrays.below
            lent_arrays.new_at i p.found in_ v (KeyAt-Frame (loan-Frame k null null) k) p.slot
            room in
        record {
          after = s.after;
          collisions = s.collisions;
          runs = s.runs;
          own' = claim (loan kp k) (0 + i) own;
          arrays = Arrays-Changed a lent_arrays i index_in differ s.changed;
          walks = λ j p' es' le walk. Walk-Changed a lent_arrays i index_in differ s.changed j le (
              Walk-Frame own own j (loan-Frame k null null) (λ ne. absurd (ne refl)) (λ q used o. o)
                walk);
        }

    rehash_complex-entry :
        Valued (now (digest key % a.new_cap))
        → hmap_rehash_complex env a.new
            (digest key % a.new_cap)
            (record { key = kp; value = v })
            (record m { collisions = c })
            (loan kp k)
          ≡ settle env a.new
              (digest key % a.new_cap)
              kp
              v
              target
              (record m { collisions = c })
              (loan kp k)
    rehash_complex-entry some_values =
        let i = digest key % a.new_cap in
        let p = lent_arrays.news.places i index_in in
        let in_ : ltb i (length lent_arrays.nb) ≡ true =
          ground (arith, lent_arrays.news.sized, index_in) in
        rehash_complex-settle env roomy (record m { collisions = c }) pos (omega arith)
          lent_arrays.below lent_arrays.new_at i p.found in_ v kp p.slot some_values

  nonzero : (a.new_cap == 0) ≡ false
  nonzero = ground arith

  rehash_list-Moved :
      (rounds c : ℕ) {own : Ptr → ℕ} {h : Heap} (es : List Entry) (now : Contents) (top : Ptr)
      (j : ℕ) {p : Ptr} (w : Arrays a own h now top)
      → Walk h own j p es
      → a.new_cap ≤ j
      → length es < rounds
      → Fits (length es) now
      → Valued es
      → ((i : ℕ) → Valued (now i))
      → 0 < top
      → top + 7 * length es ≤ limit
      → Moved
          (rehash_list env a.new a.new_cap rounds p (record m { collisions = c }) h)
          m
          a
          h
          own
          (scatter_list digest a.new_cap es now)
          (top + 7 * length es)
  unfolding rehash_list hmap_hash_private
  rehash_list-Moved zero c es now top j w walk le few fits some_values some_now pos under =
      absurd (omega arith)
  rehash_list-Moved (suc rounds) c {own} {h} [] now top j w done le few fits some_values some_now
        pos under =
      record {
        after = h;
        collisions = c;
        runs = refl;
        own' = own;
        arrays = Arrays-top (top + 7 * 0) (omega arith) w;
        walks = λ j' p es le' walk. walk;
      }
  rehash_list-Moved (suc rounds) c {own} {h} ((key, v) ∷ es) now top j w
        (step {q} {e} {kp} o node pair k rest) le few fits some_values some_now pos under =
      let i = digest key % a.new_cap in
      let room : length (now i) + 1 < 2 ^ 64 = omega (arith, fits i) in
      let s = entry-Moved c w k v pos (omega arith) room in
      let moved =
        rehash_list-Moved rounds s.collisions es (push digest a.new_cap key v now) (top + 7) j
          s.arrays (s.walks j q es le rest) le (omega arith)
          (Fits-push digest a.new_cap (length es) key v now (λ i'. omega (arith, fits i')))
          some_values.1 (Valued-push digest a.new_cap key v now some_now some_values.0)
          (omega arith) (omega arith) in
      record {
        after = moved.after;
        collisions = moved.collisions;
        runs =
            rw
              (
                not_null node,
                load_node-ok node,
                load_linked-ok pair,
                borrow_key-ok (record m { collisions = c }) k,
                hashes key,
                nonzero,
                rehash_complex-entry c w k v pos (omega arith) room (some_now i),
                s.runs,
              )
              moved.runs;
        own' = moved.own';
        arrays = Arrays-top (top + 7 * suc (length es)) (omega arith) moved.arrays;
        walks = λ j' p' es' le' walk. moved.walks j' p' es' le' (s.walks j' p' es' le' walk);
      }

  -- A bucket of the old array moves to the new one.
  pub rehash_bucket-Moved :
      (c : ℕ) {own : Ptr → ℕ} {h : Heap} (now : Contents) (top : Ptr) (j : ℕ) {b : HmapBucket}
      {header end : Ptr} {es : List Entry} (w : Arrays a own h now top) (s : Slot h b header end es)
      → Holding own j s
      → a.new_cap ≤ j
      → length es < env.rounds
      → Fits (length es) now
      → Valued es
      → ((i : ℕ) → Valued (now i))
      → 0 < top
      → top + 7 * length es ≤ limit
      → Moved
          (rehash_bucket env a.new a.new_cap b (record m { collisions = c }) h)
          m
          a
          h
          own
          (scatter_list digest a.new_cap es now)
          (top + 7 * length es)
  unfolding rehash_bucket hmap_hash_private
  rehash_bucket-Moved c {own} {h} now top j w (vacant s l plain empty bare) held le few fits
        some_values some_now pos under =
      record {
        after = h;
        collisions = c;
        runs = rw (empty, bare) refl;
        own' = own;
        arrays = Arrays-top (top + 7 * 0) (omega arith) w;
        walks = λ j' p es le' walk. walk;
      }
  rehash_bucket-Moved c {own} {h} now top j {b} w (single {key} {v} s l plain k is) held le few fits
        some_values some_now pos under =
      let i = digest key % a.new_cap in
      let room : length (now i) + 1 < 2 ^ 64 = omega (arith, fits i) in
      let e = entry-Moved c w k b.value pos (omega arith) room in
      let t =
        (lent_arrays c w k b.value pos (omega arith) room).news.places i
          (index_in c w k b.value pos (omega arith) room) in
      record {
        after = e.after;
        collisions = e.collisions;
        runs =
            rw
              (
                not_null k.is.struct,
                plain,
                borrow_key-ok (record m { collisions = c }) k,
                hashes key,
                nonzero,
                load_bucket-ok i (Arrays-loan a k w).new_at t.found,
              )
              e.runs;
        own' = e.own';
        arrays = rw (sym is) (Arrays-top (top + 7 * 1) (omega arith) e.arrays);
        walks = e.walks;
      }
  rehash_bucket-Moved c {own} {h} now top j {b} w (chain {l} complex head last is entries) held le
        few fits some_values some_now pos under =
      let some_list : (b.value == null) ≡ false = ground (arith, head, is.header.ne_null) in
      let full : (b.key == null && b.value == null) ≡ false = ground arith in
      let moved =
        rehash_list-Moved env.rounds c _ now top j w
          (Seg-Walk own j is.chain is.back entries held.1) le few fits some_values some_now pos
          under in
      record {
        after = moved.after;
        collisions = moved.collisions;
        runs = rw (full, complex, head, load_list-ok is.header) moved.runs;
        own' = moved.own';
        arrays = moved.arrays;
        walks = moved.walks;
      }
