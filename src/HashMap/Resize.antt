-- ===== src/HashMap/Resize.antt =====
-- Growing the bucket array, and the load that calls for it.
use neonrt.Base.{ℕ, zero, suc, ◌+◌, ◌/◌, ◌%◌, true, false, not, ◌&&◌, ◌||◌, none, some, List}
use neonrt.Base.{◌==◌, ltb, if◌then◌else◌, replicate}
use neonrt.Word.{add_size, mul_size}
use neonrt.Memory
use neonrt.Memory.{Ptr, null, HmapBucket, HmapLinkedNode, buckets, fault, ok, out_of_fuel, Cmd}
use neonrt.Memory.{allocate, init, free, load_node, load_list, load_linked}
use neonrt.Buffer.{buff_borrow, buff_len, read_bytes}
use neonrt.LinkedList.{ll_free}
use neonrt.HashMap.{
  HmapCmd, pure, ◌>>=◌, ◌>>◌, lift, get, modify, Env, load_bucket, store_bucket, empty_bucket,
  UnhealthyCallback, default_unhealthy, user_unhealthy, threshold_disable, error_malloc_failed,
  error_too_large, error_rehash_failed, error_locked,
}
use neonrt.HashMap.Check.{hmap_check, hmap_set_error}
use neonrt.HashMap.Chain.{hmap_complex_key_set_value}

-- `hmap_hash_private`; a remainder by 0 is a fault.
unfoldable pub hmap_hash_private : ℕ → List ℕ → HmapCmd ℕ
hmap_hash_private mod_ key = do
  hmap ← get
  (λ m h. elim (hmap.hash_fn key hmap.seed) [
    | none ↦ fault
    | some hash ↦ (if mod_ == 0 then fault else ok (hash % mod_, m) h)
  ])

-- The bytes of a key as `buff_borrow` and `buff_len` give them.
unfoldable pub borrow_key : Ptr → HmapCmd (List ℕ)
unfolding read_bytes
borrow_key key = do p ← lift (buff_borrow key); n ← lift (buff_len key); lift (read_bytes p n)

-- A bucket that is neither complex nor in use takes the key and the value.
abbrev pub plain_bucket : Ptr → Ptr → HmapBucket
plain_bucket key value = record { key = key; value = value; value_len = 0; is_complex = false }

-- The new bucket is `array[i]`.
unfoldable pub hmap_rehash_complex : Env → Ptr → ℕ → HmapLinkedNode → HmapCmd (Unit {0})
unfolding borrow_key
hmap_rehash_complex env array i node_value = do
  new_bucket ← lift (load_bucket array i)
  if new_bucket.is_complex || (not (new_bucket.key == null) && not (new_bucket.value == null))
      then (do
        key ← borrow_key node_value.key
        hmap_complex_key_set_value env array i key node_value.value)
      else if new_bucket.key == null && new_bucket.value == null
      then lift (store_bucket array i (plain_bucket node_value.key node_value.value))
      else pure tt

module _ (env : Env) (new_buckets : Ptr) (new_cap : ℕ) where
  -- The loop along the list of a complex bucket.
  unfoldable pub rehash_list : ℕ → Ptr → HmapCmd (Unit {0})
  rehash_list zero p = λ m h. out_of_fuel
  rehash_list (suc rounds) p = if p == null then pure tt else do
    n ← lift (load_node p)
    node_value ← lift (load_linked n.payload)
    key ← borrow_key node_value.key
    new_hash ← hmap_hash_private new_cap key
    hmap_rehash_complex env new_buckets new_hash node_value
    rehash_list rounds n.next

  unfoldable pub rehash_bucket : HmapBucket → HmapCmd (Unit {0})
  rehash_bucket old_bucket =
      if old_bucket.key == null && old_bucket.value == null
      then pure tt
      else if old_bucket.is_complex
      then (do l ← lift (load_list old_bucket.value); rehash_list env.rounds l.first)
      else do
        key ← borrow_key old_bucket.key
        new_hash ← hmap_hash_private new_cap key
        new_bucket ← lift (load_bucket new_buckets new_hash)
        if new_bucket.key == null && new_bucket.value == null
            then lift
                (store_bucket new_buckets new_hash (plain_bucket old_bucket.key old_bucket.value))
            else do
              key' ← borrow_key old_bucket.key
              hmap_complex_key_set_value env new_buckets new_hash key' old_bucket.value

  -- The loop over the buckets at index `i`, with `capacity - i` rounds left.
  unfoldable pub rehash_loop : ℕ → ℕ → HmapCmd (Unit {0})
  rehash_loop zero i = pure tt
  rehash_loop (suc left) i = do
    hmap ← get
    old_bucket ← lift (load_bucket hmap.bucket_array i)
    rehash_bucket old_bucket
    rehash_loop left (i + 1)

unfoldable pub hmap_rehash : Env → Ptr → ℕ → HmapCmd (Unit {0})
unfolding rehash_loop rehash_bucket rehash_list
hmap_rehash env new_buckets new_cap = do
  hmap ← get
  rehash_loop env new_buckets new_cap hmap.capacity 0

-- The loop of `hmap_free_buckets` along a list: the entries are freed, and the nodes are not.
unfoldable pub free_entries : ℕ → Ptr → Cmd (Unit {0})
free_entries zero p = λ h. out_of_fuel
free_entries (suc rounds) p =
    if p == null
    then Memory.pure tt
    else Memory.◌>>=◌ (load_node p) λ n. Memory.◌>>◌ (free n.payload) (free_entries rounds n.next)

unfoldable pub free_bucket_loop : ℕ → Ptr → ℕ → ℕ → HmapCmd (Unit {0})
free_bucket_loop rounds array zero i = pure tt
free_bucket_loop rounds array (suc left) i = do
  b ← lift (load_bucket array i)
  (if b.is_complex
      then (do
        l ← lift (load_list b.value)
        lift (free_entries rounds l.first)
        lift (ll_free rounds b.value))
      else pure tt)
  free_bucket_loop rounds array left (i + 1)

unfoldable pub hmap_free_buckets : Env → Ptr → ℕ → HmapCmd (Unit {0})
unfolding free_bucket_loop free_entries
hmap_free_buckets env array capacity =
    free_bucket_loop env.rounds array capacity 0 >> lift (free array)

unfoldable pub count_loop : Ptr → ℕ → ℕ → ℕ → HmapCmd ℕ
count_loop array zero i collisions = pure collisions
count_loop array (suc left) i collisions = do
  b ← lift (load_bucket array i)
  count_loop array left (i + 1) (if b.is_complex then add_size collisions 1 else collisions)

unfoldable pub count_collisions : HmapCmd ℕ
unfolding count_loop
count_collisions = do
  hmap ← get
  collisions ← count_loop hmap.bucket_array hmap.capacity 0 0
  modify λ m. record m { collisions = collisions }
  pure collisions

module _ (env : Env) (resize : ℕ → HmapCmd (Unit {0})) where
  -- The check that fails does not stop the callback.
  unfoldable pub default_unhealthy_callback : ℕ → HmapCmd (Unit {0})
  default_unhealthy_callback current_load = do
    passed ← hmap_check "default_unhealthy_callback"
    (if passed
        then pure tt
        else hmap_set_error "hashmap load factor" "default_unhealthy_callback" error_locked)
    hmap ← get
    if not (hmap.unhealthy_threshold == threshold_disable)
          && ltb hmap.unhealthy_threshold current_load
        then resize (mul_size hmap.capacity 2)
        else pure tt

  unfoldable pub call_unhealthy : UnhealthyCallback → ℕ → HmapCmd (Unit {0})
  call_unhealthy default_unhealthy current_load = default_unhealthy_callback current_load
  call_unhealthy (user_unhealthy n) current_load = env.user_callback n resize current_load

  -- `update_load_factor`; a quotient by 0 is a fault.
  unfoldable pub update_load : HmapCmd (Unit {0})
  update_load = do
    hmap ← get
    if hmap.capacity == 0 then (λ m h. fault) else do
      let load = mul_size hmap.set 100 / hmap.capacity
      modify λ m. record m { load_factor = load }
      if ltb hmap.unhealthy_threshold load
          then call_unhealthy hmap.unhealthy_callback load
          else pure tt

-- `hmap_resize`, in which at most the given number of calls of itself are nested.
unfoldable pub hmap_resize : ℕ → Env → ℕ → HmapCmd (Unit {0})
unfolding update_load call_unhealthy default_unhealthy_callback
hmap_resize zero env new_cap = λ m h. out_of_fuel
hmap_resize (suc depth) env new_cap = do
  modify λ m. record m { locked = true }
  start ← get
  (if ltb 0 start.resize_bound && ltb start.resize_bound new_cap
      then hmap_set_error "new capacity is over the resize bound" "hmap_resize" error_too_large
      else pure tt)
  new_buckets ← lift (allocate env.alloc (mul_size new_cap 32))
  if new_buckets == null
      then hmap_set_error "malloc failed during resize backing off" "hmap_resize"
          error_malloc_failed
      else do
        lift (init new_buckets (buckets (replicate (mul_size new_cap 32 / 32) empty_bucket)))
        modify λ m. record m { collisions = 0 }
        hmap_rehash env new_buckets new_cap
        rehashed ← get
        if not (rehashed.last_error_code == 0)
            then hmap_free_buckets env new_buckets new_cap
              >> hmap_set_error "rehash failed during resize backing off" "hmap_resize"
                  error_rehash_failed
            else do
              modify
                  λ m. record m { bucket_array = new_buckets; capacity = new_cap; set = start.set }
              hmap_free_buckets env rehashed.bucket_array rehashed.capacity
              update_load env (hmap_resize depth env)
              count_collisions
              modify λ m. record m { locked = false }

unfoldable pub update_load_factor : Env → HmapCmd (Unit {0})
unfolding hmap_resize
update_load_factor env = update_load env (hmap_resize env.rounds env)
