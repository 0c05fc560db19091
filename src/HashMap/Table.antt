-- ===== src/HashMap/Table.antt =====
-- The operations of a hash map.
use mathlib.Core.Option
use neonrt.Base
use neonrt.Base.{ℕ, ◌/◌, Option, Bool, true, false, not, ◌&&◌, none, some, List, []}
use neonrt.Base.{◌==◌, if◌then◌else◌, replicate}
use neonrt.Word.{add_size, sub_size, mul_size}
use neonrt.Memory
use neonrt.Memory.{Ptr, null, buckets, Cmd, Allocator, allocate, init, free}
use neonrt.SipWrapper.{wrap_siphash}
use neonrt.Buffer.{buff_new, buff_free, buff_cmp_raw}
use neonrt.HashMap.{
  Hmap, HmapCmd, pure, ◌>>=◌, ◌>>◌, lift, get, modify, Env, load_bucket, store_bucket, empty_bucket,
  default_error_callback, default_unhealthy, ErrorCallback, UnhealthyCallback, default_capacity,
  default_healthy_threshold, default_seed, error_key_mismatch,
}
use neonrt.HashMap.Check.{hmap_check, hmap_set_error}
use neonrt.HashMap.Chain.{
  hmap_complex_key_get_value, hmap_complex_key_set_value, hmap_complex_key_unset_value,
}
use neonrt.HashMap.Resize.{hmap_hash_private, update_load_factor, hmap_free_buckets}

-- A hash function pointer, NULL as `none`.
abbrev pub HashFn : Type 0
HashFn = Option (List ℕ → ℕ → Option ℕ)

-- The struct takes 352 bytes. The bucket array has as many places as the `capacity` given, which
-- `memset` clears; the field falls back to the default where that is 0.
unfoldable pub hmap_new : Env → ℕ → ℕ → ℕ → HashFn → Cmd (Option Hmap)
hmap_new env capacity healthy_threshold seed hash_fn = Memory.◌>>=◌ (allocate env.alloc 352) λ self.
    if self == null
    then Memory.pure none
    else Memory.◌>>=◌ (allocate env.alloc (mul_size 32 capacity)) λ array.
      Memory.◌>>◌ (init array (buckets (replicate (mul_size 32 capacity / 32) empty_bucket))) (
        Memory.pure (
          some (record {
            self = self;
            capacity = if capacity == 0 then default_capacity else capacity;
            set = 0;
            load_factor = 0;
            unhealthy_threshold =
                if healthy_threshold == 0 then default_healthy_threshold else healthy_threshold;
            seed = if seed == 0 then default_seed else seed;
            collisions = 0;
            hash_fn = Option.get_or hash_fn (wrap_siphash env.sip);
            bucket_array = array;
            resize_bound = 0;
            error_callback = default_error_callback;
            unhealthy_callback = default_unhealthy;
            last_error_msg = ("", "");
            last_error_code = 0;
            unrecoverable_error = false;
            locked = false;
            reports = [];
          })))

unfoldable pub hmap_new_default : Env → Cmd (Option Hmap)
unfolding hmap_new
hmap_new_default env = hmap_new env default_capacity default_healthy_threshold default_seed none

-- `hmap_free` of a map that is no null pointer.
unfoldable pub hmap_free : Env → HmapCmd (Unit {0})
hmap_free env = do
  hmap ← get
  hmap_free_buckets env hmap.bucket_array hmap.capacity
  lift (free hmap.self)

unfoldable pub hmap_set_error_callback : ErrorCallback → HmapCmd (Unit {0})
hmap_set_error_callback callback = modify λ hmap. record hmap { error_callback = callback }

unfoldable pub hmap_set_unhealthy_callback : UnhealthyCallback → HmapCmd (Unit {0})
hmap_set_unhealthy_callback callback = modify λ hmap. record hmap { unhealthy_callback = callback }

unfoldable pub hmap_set_max_buckets : ℕ → HmapCmd (Unit {0})
hmap_set_max_buckets max_buckets = modify λ hmap. record hmap { resize_bound = max_buckets }

unfoldable pub hmap_hash : List ℕ → HmapCmd ℕ
unfolding hmap_hash_private
hmap_hash key = do hmap ← get; hmap_hash_private hmap.capacity key

unfoldable pub hmap_get : Env → List ℕ → HmapCmd Ptr
unfolding hmap_hash
hmap_get env key = do
  passed ← hmap_check "hmap_get"
  if not passed then pure null else do
    index ← hmap_hash key
    hmap ← get
    bucket ← lift (load_bucket hmap.bucket_array index)
    if bucket.is_complex
        then hmap_complex_key_get_value env bucket key
        else if not (bucket.key == null)
        then (do
          same ← lift (buff_cmp_raw env.sip bucket.key (some key))
          if same
              then pure bucket.value
              else hmap_set_error "key does not match" "hmap_get" error_key_mismatch >> pure null)
        else hmap_set_error "key does not exist" "hmap_get" error_key_mismatch >> pure null

-- One more key is set, and the load is computed anew.
count_set : Env → HmapCmd Bool
count_set env =
    modify (λ hmap. record hmap { set = add_size hmap.set 1 })
    >> (update_load_factor env >> pure true)

unfoldable pub hmap_set : Env → List ℕ → Ptr → Bool → HmapCmd Bool
unfolding hmap_hash count_set
hmap_set env key value allow_update = do
  passed ← hmap_check "hmap_set"
  if not passed then pure false else do
    index ← hmap_hash key
    hmap ← get
    let array = hmap.bucket_array
    bucket ← lift (load_bucket array index)
    if bucket.is_complex
        then hmap_complex_key_set_value env array index key value >> count_set env
        else if not (bucket.key == null)
        then (do
          same ← lift (buff_cmp_raw env.sip bucket.key (some key))
          if same
              then if allow_update
                then lift (store_bucket array index (record bucket { value = value }))
                  >> count_set env
                else hmap_set_error "key already exists" "hmap_set" error_key_mismatch >> pure false
              else hmap_complex_key_set_value env array index key value >> count_set env)
        else do
          key_buff ← lift (buff_new env.alloc key (Base.length key))
          lift (
              store_bucket array index
                (record bucket { key = key_buff; value = value; is_complex = false }))
          count_set env

unfoldable pub hashmap_unset : Env → List ℕ → HmapCmd Ptr
unfolding hmap_hash
hashmap_unset env key = do
  passed ← hmap_check "hashmap_unset"
  if not passed then pure null else do
    index ← hmap_hash key
    hmap ← get
    let array = hmap.bucket_array
    bucket ← lift (load_bucket array index)
    if bucket.is_complex
        then hmap_complex_key_unset_value env bucket key
        else if not (bucket.key == null)
        then (do
          lift (store_bucket array index (record bucket { value = null }))
          lift (buff_free bucket.key)
          lift (store_bucket array index (record bucket { key = null; value = null }))
          update_load_factor env
          modify λ m. record m { set = sub_size m.set 1 }
          pure bucket.value)
        else hmap_set_error "key does not exist" "hashmap_unset" error_key_mismatch >> pure null
