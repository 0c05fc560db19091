-- ===== src/HashMap/Release.antt =====
-- `hmap_free` of a map that no key was set in.
use neonrt.Base.{◌*◌, ◌/◌, ◌^◌, ◌≡◌, ◌≢◌, ◌<◌, refl, sym, false, none, some, arith, ◌==◌, replicate}
use neonrt.Word.{mul_size}
use neonrt.Memory.{null, buckets, raw, Heap, ok, write}
use neonrt.Memory.Rules.{Holds, Holds-allocate, Holds-write_ne, allocate_unused, free-ok}
use neonrt.HashMap.{Env, Hmap, empty_bucket}
use neonrt.HashMap.Table.{hmap_new, hmap_free}
use neonrt.HashMap.New.{fresh, made, array, with_struct, hmap_new-ok, Holds-made}
use neonrt.HashMap.Regrow.{hmap_free_buckets-empty}

-- Where memory suffices for a map of `capacity` buckets, at least one, and their size is below 2 ^ 64,
-- `hmap_new` without a hash function and then `hmap_free` succeed and leave all of memory as it was.
pub new_then_free :
    (env : Env) (capacity healthy_threshold seed : _) (h : Heap)
    → (env.alloc.malloc 352 h == null) ≡ false
    → (array env capacity healthy_threshold seed h == null) ≡ false
    → 32 * capacity < 2 ^ 64
    → capacity ≢ 0
    → (m : Hmap) × (h' h'' : Heap) × (hmap_new env capacity healthy_threshold seed none h
        ≡ ok (some m) h')
      × (hmap_free env m h' ≡ ok (tt, m) h'')
      × ((q : _) → h'' q ≡ h q)
unfolding hmap_free write
new_then_free env capacity healthy_threshold seed h got got' room some_buckets =
    let m = fresh env capacity healthy_threshold seed h in
    let h' = made env capacity healthy_threshold seed h got got' in
    let places : mul_size 32 capacity / 32 ≡ m.capacity = ground arith in
    let at : Holds h' m.bucket_array (buckets (replicate m.capacity empty_bucket)) =
      rw (sym places) (Holds-made env capacity healthy_threshold seed h got got') in
    let unused = allocate_unused env.alloc 352 h got in
    let unused' =
      allocate_unused env.alloc (mul_size 32 capacity)
        (with_struct env capacity healthy_threshold seed h) got' in
    let apart : m.self ≢ m.bucket_array = ground (arith, unused') in
    let struct : Holds (write h' m.bucket_array none) m.self (raw 352) =
      Holds-write_ne m.bucket_array none
        (Holds-write_ne m.bucket_array _
          (Holds-write_ne m.bucket_array _ (Holds-allocate env.alloc 352 h got) apart) apart)
        apart in
    (
      m,
      h',
      write (write h' m.bucket_array none) m.self none,
      hmap_new-ok env capacity healthy_threshold seed h got got',
      rw (hmap_free_buckets-empty env m.capacity at m, free-ok struct) refl,
      λ q. ground (arith, unused, unused', apart),
    )
