-- ===== src/Tests/MapTests.antt =====
-- A map of two buckets: the first is empty, and the second holds the key at address 50.
use neonrt.Base.{◌≡◌, refl, true, false, some, [], ◌∷◌, arith, length}
use neonrt.Memory.{null, Heap, ok, write, buckets, allocate}
use neonrt.Buffer.{buff_new}
use neonrt.HashMap.{Hmap, Env, default_error_callback, default_unhealthy, error_key_mismatch}
use neonrt.HashMap.Table.{hmap_get, hmap_set, hashmap_unset}
use neonrt.HashMap.Closed.{failed, refusal, closed_map_refuses}
use neonrt.HashMap.Lookup.{Reaches}
use neonrt.HashMap.Update.{set_without_memory, hmap_set_present}
use neonrt.Tests.Fixtures.{
  memory, buckets_at, memory-IsBuff, two_buckets, first_fit, no_memory, zeros,
}

abbrev env : Env
env = record {
  alloc = first_fit;
  sip = zeros;
  user_callback = λ n resize load m h. ok (tt, m) h;
  rounds = 9;
}

abbrev starved : Env
starved = record env { alloc = no_memory }

abbrev map : Hmap
map = record {
  self = 19;
  capacity = 2;
  set = 1;
  load_factor = 50;
  unhealthy_threshold = 100;
  seed = 3;
  collisions = 0;
  hash_fn = λ key seed. some (length key);
  bucket_array = 20;
  resize_bound = 0;
  error_callback = default_error_callback;
  unhealthy_callback = default_unhealthy;
  last_error_msg = ("", "");
  last_error_code = 0;
  unrecoverable_error = false;
  locked = false;
  reports = [];
}

map-Reaches-one : Reaches map memory (1 ∷ []) 1 two_buckets
map-Reaches-one = record {
  unlocked = refl;
  recoverable = refl;
  hashes = refl;
  array = buckets_at;
  sized = refl;
  capacity_ne = omega arith;
}

map-Reaches-two : Reaches map memory (7 ∷ 8 ∷ []) 2 two_buckets
map-Reaches-two = record {
  unlocked = refl;
  recoverable = refl;
  hashes = refl;
  array = buckets_at;
  sized = refl;
  capacity_ne = omega arith;
}

closed_map_refuses_example :
    (hmap_get env (1 ∷ []) (record map { locked = true }) memory
      ≡ ok (null, refusal "hmap_get" (record map { locked = true })) memory)
    × (hmap_set env (1 ∷ []) 5 true (record map { locked = true }) memory
        ≡ ok (false, refusal "hmap_set" (record map { locked = true })) memory)
    × (hashmap_unset env (1 ∷ []) (record map { locked = true }) memory
        ≡ ok (null, refusal "hashmap_unset" (record map { locked = true })) memory)
closed_map_refuses_example =
    closed_map_refuses env (1 ∷ []) 5 true (record map { locked = true }) memory refl

abbrev counted_map : Hmap
counted_map = record map { set = 2; load_factor = 100 }

set_without_memory_example :
    (h' : Heap) × (hmap_set starved (7 ∷ 8 ∷ []) 5 false map memory ≡ ok (true, counted_map) h')
    × (hmap_get starved (7 ∷ 8 ∷ []) counted_map h'
        ≡ ok (null, failed "hmap_get" "key does not exist" error_key_mismatch counted_map) h')
unfolding no_memory buff_new allocate
set_without_memory_example =
    set_without_memory starved map-Reaches-two refl refl 5 false refl refl refl (λ q. refl)

hmap_set_present_example :
    (hmap_set env (1 ∷ []) 5 false map memory
      ≡ ok (false, failed "hmap_set" "key already exists" error_key_mismatch map) memory)
    × (hmap_set env (1 ∷ []) 5 true map memory
        ≡ ok
            (true, counted_map)
            (write memory 20 (
              some (
                buckets (
                  record { key = null; value = null; value_len = 0; is_complex = false }
                  ∷ record { key = 50; value = 5; value_len = 0; is_complex = false }
                  ∷ [])))))
hmap_set_present_example = hmap_set_present env map-Reaches-one refl refl 5 memory-IsBuff refl refl
