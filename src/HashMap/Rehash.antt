-- ===== src/HashMap/Rehash.antt =====
-- The loop of `hmap_rehash`.
use neonrt.Base.{ℕ, zero, suc, ◌+◌, ◌*◌, ◌≡◌, ◌≢◌, ◌≤◌, ◌<◌, refl, some, List, arith, length}
use neonrt.Memory.{Ptr, buckets, Heap}
use neonrt.Memory.Rules.{Holds}
use neonrt.Memory.Frame.{Roomy}
use neonrt.HashMap.{Hmap, Env}
use neonrt.HashMap.Resize.{rehash_loop}
use neonrt.HashMap.Lookup.{load_bucket-ok}
use neonrt.HashMap.Represent.{Contents}
use neonrt.HashMap.Arrays.{Places, Arrays, Arrays-top}
use neonrt.HashMap.Settle.{Valued}
use neonrt.HashMap.Scatter.{
  scatter_list, scatter, total, Fits, Fits-scatter_list, Valued-scatter_list,
}
use neonrt.HashMap.Move.{Moved, rehash_bucket-Moved}

module _ (env : Env) {limit : Ptr} (roomy : Roomy env.alloc limit) (m : Hmap) (a : Places)
    (digest : List ℕ → ℕ) (hashes : (key : List ℕ) → m.hash_fn key m.seed ≡ some (digest key))
    (some_buckets : a.new_cap ≢ 0) (differ : a.old ≢ a.new) where
  pub rehash_loop-Moved :
      (left i c : ℕ) {own : Ptr → ℕ} {h : Heap} (now : Contents) (top : Ptr)
      → Arrays a own h now top
      → m.bucket_array ≡ a.old
      → i + left ≤ a.cap
      → ((k : ℕ) → length (a.before k) < env.rounds)
      → Fits (total left i a.before) now
      → ((k : ℕ) → Valued (a.before k))
      → ((k : ℕ) → Valued (now k))
      → 0 < top
      → top + 7 * total left i a.before ≤ limit
      → Moved
          (rehash_loop env a.new a.new_cap left i (record m { collisions = c }) h)
          m
          a
          h
          own
          (scatter digest a.new_cap left i a.before now)
          (top + 7 * total left i a.before)
  unfolding rehash_loop
  rehash_loop-Moved zero i c {own} {h} now top w is_old within few fits some_before some_now pos
        under =
      record {
        after = h;
        collisions = c;
        runs = refl;
        own' = own;
        arrays = Arrays-top (top + 7 * 0) (omega arith) w;
        walks = λ j p es le walk. walk;
      }
  rehash_loop-Moved (suc left) i c {own} {h} now top w is_old within few fits some_before some_now
        pos under =
      let es = a.before i in
      let rest = total left (i + 1) a.before in
      let old_at : Holds h m.bucket_array (buckets a.bs) = rw is_old w.old_at in
      let p = w.olds.places i (omega arith) in
      let s =
        rehash_bucket-Moved env roomy m a digest hashes some_buckets differ c now top
          (a.new_cap + i) w p.slot p.owned (omega arith) (few i) (λ k. omega (arith, fits k))
          (some_before i) some_now pos (omega arith) in
      let moved =
        rehash_loop-Moved left (i + 1) s.collisions (scatter_list digest a.new_cap es now)
          (top + 7 * length es) s.arrays is_old (omega arith) few
          (Fits-scatter_list digest a.new_cap rest es now (λ k. omega (arith, fits k))) some_before
          (Valued-scatter_list digest a.new_cap es now some_now (some_before i)) (omega arith)
          (omega arith) in
      record {
        after = moved.after;
        collisions = moved.collisions;
        runs = rw (load_bucket-ok i old_at p.found, s.runs) moved.runs;
        own' = moved.own';
        arrays = Arrays-top (top + 7 * (length es + rest)) (omega arith) moved.arrays;
        walks = λ j p es le walk. moved.walks j p es le (s.walks j p es le walk);
      }
