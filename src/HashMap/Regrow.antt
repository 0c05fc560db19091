-- ===== src/HashMap/Regrow.antt =====
-- `hmap_resize` that an error of before stops, and arrays of empty buckets.
use neonrt.Base.{
  ℕ, zero, suc, ◌+◌, ◌*◌, ◌/◌, ◌^◌, ◌≤◌, ◌<◌, ◌≡◌, ◌≢◌, refl, ap, true, false, ◌&&◌, some, none,
  List, arith, ◌==◌, ltb, replicate, length-replicate, get_elem?-replicate,
}
use neonrt.Word.{mul_size}
use neonrt.Memory.{Ptr, null, buckets, raw, size_of, Heap, ok, write}
use neonrt.Memory.Rules.{
  Holds, Holds-allocate, Holds-write, Holds-write_ne, allocate-ok, allocate_unused, init-ok,
  free-ok,
}
use neonrt.HashMap.{Hmap, Env, empty_bucket, error_rehash_failed}
use neonrt.HashMap.Check.{hmap_set_error}
use neonrt.HashMap.Resize.{
  rehash_bucket, rehash_loop, hmap_rehash, free_bucket_loop, hmap_free_buckets, hmap_resize,
}
use neonrt.HashMap.Closed.{failed, refusal, closed_map_refuses}
use neonrt.HashMap.Table.{hmap_get}
use neonrt.HashMap.Lookup.{load_bucket-ok}

rehash_loop-empty :
    (env : Env) (h : Heap) (n : ℕ) (new_buckets : Ptr) (new_cap left i : ℕ) (m : Hmap)
    → Holds h m.bucket_array (buckets (replicate n empty_bucket))
    → i + left ≤ n
    → rehash_loop env new_buckets new_cap left i m h ≡ ok (tt, m) h
unfolding rehash_loop rehash_bucket
rehash_loop-empty env h n new_buckets new_cap zero i m at room = refl
rehash_loop-empty env h n new_buckets new_cap (suc left) i m at room =
    rw (load_bucket-ok i at (get_elem?-replicate n empty_bucket i (omega arith)))
      (rehash_loop-empty env h n new_buckets new_cap left (i + 1) m at (omega arith))

module _ (env : Env) {h : Heap} {array : Ptr} (n : ℕ)
    (at : Holds h array (buckets (replicate n empty_bucket))) where
  free_bucket_loop-empty :
      (left i : ℕ) (m : Hmap)
      → i + left ≤ n
      → free_bucket_loop env.rounds array left i m h ≡ ok (tt, m) h
  unfolding free_bucket_loop
  free_bucket_loop-empty zero i m room = refl
  free_bucket_loop-empty (suc left) i m room =
      rw (load_bucket-ok i at (get_elem?-replicate n empty_bucket i (omega arith)))
        (free_bucket_loop-empty left (i + 1) m (omega arith))

  pub hmap_free_buckets-empty :
      (m : Hmap) → hmap_free_buckets env array n m h ≡ ok (tt, m) (write h array none)
  unfolding hmap_free_buckets
  hmap_free_buckets-empty m = rw (free_bucket_loop-empty n 0 m (omega arith), free-ok at) refl

module _ (env : Env) (new_cap : ℕ) (m : Hmap) (h : Heap) where
  abbrev pub new_array : Ptr
  new_array = env.alloc.malloc (mul_size new_cap 32) h

  abbrev pub with_new : Heap
  with_new =
      write (write h new_array (some (raw (mul_size new_cap 32)))) new_array
        (some (buckets (replicate new_cap empty_bucket)))

  -- The map after a resize.
  abbrev pub resized : Hmap
  resized = record m {
    bucket_array = new_array;
    capacity = new_cap;
    collisions = 0;
    load_factor = mul_size m.set 100 / new_cap;
    locked = false;
  }

  -- The map after a resize that an error of before has stopped.
  abbrev pub stopped : Hmap
  stopped =
      failed "hmap_resize" "rehash failed during resize backing off" error_rehash_failed
        (record m { locked = true; collisions = 0 })

  module _ (at : Holds h m.bucket_array (buckets (replicate m.capacity empty_bucket)))
      (got : (new_array == null) ≡ false) (small : new_cap * 32 < 2 ^ 64)
      (within : (ltb 0 m.resize_bound && ltb m.resize_bound new_cap) ≡ false) where
    places : mul_size new_cap 32 / 32 ≡ new_cap
    places = omega (arith, small)

    old-ne-new : m.bucket_array ≢ new_array
    old-ne-new e =
        ground (arith, allocate_unused env.alloc (mul_size new_cap 32) h got, at.at, ap h e)

    old_at : Holds with_new m.bucket_array (buckets (replicate m.capacity empty_bucket))
    old_at = Holds-write_ne new_array _ (Holds-write_ne new_array _ at old-ne-new) old-ne-new

    new_at : Holds with_new new_array (buckets (replicate new_cap empty_bucket))
    new_at = Holds-write (Holds-allocate env.alloc (mul_size new_cap 32) h got) _

    -- Take a map with a bucket array of empty buckets, and a new capacity that is not over the bound of
    -- the map and has a size below 2 ^ 64, where memory suffices. If the map keeps the error of any call
    -- before, `hmap_resize` takes it for an error of its own: it frees the new array, keeps the old one,
    -- reports that the rehash failed, and leaves the map locked, so that a `hmap_get` after it is refused.
    pub hmap_resize-stale :
        (depth : ℕ) (key : List ℕ)
        → (m.last_error_code == 0) ≡ false
        → (hmap_resize (suc depth) env new_cap m h
            ≡ ok (tt, stopped) (write with_new new_array none))
          × Holds
              (write with_new new_array none)
              m.bucket_array
              (buckets (replicate m.capacity empty_bucket))
          × (hmap_get env key stopped (write with_new new_array none)
              ≡ ok (null, refusal "hmap_get" stopped) (write with_new new_array none))
    unfolding hmap_resize hmap_rehash hmap_set_error
    hmap_resize-stale depth key error =
        let fits : size_of (buckets (replicate new_cap empty_bucket)) ≤ mul_size new_cap 32 =
          omega (arith, small, length-replicate new_cap empty_bucket) in
        (
          rw
              (
                within,
                allocate-ok env.alloc (mul_size new_cap 32) h got,
                got,
                places,
                init-ok (Holds-allocate env.alloc (mul_size new_cap 32) h got)
                    (buckets (replicate new_cap empty_bucket)) fits,
              )
              (rw
                (
                  rehash_loop-empty env with_new m.capacity new_array new_cap m.capacity 0
                      (record m { locked = true; collisions = 0 }) old_at (omega arith),
                  error,
                  hmap_free_buckets-empty env new_cap new_at
                      (record m { locked = true; collisions = 0 }),
                )
                refl),
          Holds-write_ne new_array none old_at old-ne-new,
          (closed_map_refuses env key null false stopped _ refl).0,
        )
