-- ===== src/HashMap/Chain.antt =====
-- Buckets that hold more than one key: their value is a list of keys with values.
use neonrt.Base
use neonrt.Base.{ℕ, zero, suc, ◌+◌, Bool, true, false, not, some, List, ◌==◌, if◌then◌else◌}
use neonrt.Word.{add_size}
use neonrt.Memory.{Ptr, null, HmapBucket, linked, out_of_fuel, Cmd, Allocator, allocate, init, free}
use neonrt.Memory
use neonrt.Memory.{load_node, load_list, load_linked}
use neonrt.SipWrapper.{SipHash}
use neonrt.Buffer.{buff_new, buff_cmp_raw}
use neonrt.LinkedList.{ll_new, ll_add_node, ll_append_node, ll_remove_node, LlAddOp}
use neonrt.HashMap.{HmapCmd, pure, ◌>>=◌, ◌>>◌, lift, modify, Env, load_bucket, store_bucket}
use neonrt.HashMap.{error_malloc_failed}
use neonrt.HashMap.Check.{hmap_set_error}

module _ (sip : SipHash) (key : List ℕ) where
  -- The loop of `linked_list_find`.
  unfoldable pub find_loop : ℕ → Ptr → Cmd Ptr
  find_loop zero p = λ h. out_of_fuel
  find_loop (suc rounds) p =
      if p == null
      then Memory.pure null
      else Memory.◌>>=◌ (load_node p) λ n. Memory.◌>>=◌ (load_linked n.payload) λ node_value.
        Memory.◌>>=◌ (buff_cmp_raw sip node_value.key (some key))
          λ found. if found then Memory.pure node_value.value else find_loop rounds n.next

  -- The loop of `hmap_complex_key_unset_value`. The entry is freed, and the list loses the node that
  -- `ll_remove_node` takes for `at_index`.
  unfoldable pub unset_loop : ℕ → Ptr → Ptr → ℕ → Cmd Ptr
  unset_loop zero list p at_index = λ h. out_of_fuel
  unset_loop (suc rounds) list p at_index =
      if p == null
      then Memory.pure null
      else Memory.◌>>=◌ (load_node p) λ n. Memory.◌>>=◌ (load_linked n.payload) λ node_value.
        Memory.◌>>=◌ (buff_cmp_raw sip node_value.key (some key)) λ found.
          if found
          then Memory.◌>>◌ (free n.payload)
              (Memory.◌>>◌ (ll_remove_node list at_index) (Memory.pure node_value.value))
          else unset_loop rounds list n.next (add_size at_index 1)

unfoldable pub linked_list_find : Env → Ptr → List ℕ → HmapCmd Ptr
unfolding find_loop
linked_list_find env list key = do
  l ← lift (load_list list)
  lift (find_loop env.sip key env.rounds l.first)

unfoldable pub hmap_complex_key_get_value : Env → HmapBucket → List ℕ → HmapCmd Ptr
hmap_complex_key_get_value env bucket key =
    if bucket.is_complex then linked_list_find env bucket.value key else pure null

-- The bucket is `array[i]`.
unfoldable pub hmap_complex_key_set_value : Env → Ptr → ℕ → List ℕ → Ptr → HmapCmd (Unit {0})
hmap_complex_key_set_value env array i key value = do
  key_buff ← lift (buff_new env.alloc key (Base.length key))
  bucket ← lift (load_bucket array i)
  if not bucket.is_complex
      then (do
        first_value ← lift (allocate env.alloc 16)
        if first_value == null
            then hmap_set_error "malloc failed" "hmap_complex_key_set_value" error_malloc_failed
            else do
              lift (init first_value (linked (record { key = bucket.key; value = bucket.value })))
              list ← lift (ll_new env.alloc first_value)
              lift (store_bucket array i (record bucket { value = list }))
              node_value ← lift (allocate env.alloc 16)
              if node_value == null
                  then hmap_set_error "malloc failed" "hmap_complex_key_set_value"
                      error_malloc_failed
                  else do
                    lift (init node_value (linked (record { key = key_buff; value = value })))
                    lift (ll_append_node env.alloc list node_value)
                    lift (
                        store_bucket array i (record {
                          key = null;
                          value = list;
                          value_len = add_size bucket.value_len 2;
                          is_complex = true;
                        }))
                    modify λ hmap. record hmap { collisions = add_size hmap.collisions 1 })
      else do
        node_value ← lift (allocate env.alloc 16)
        if node_value == null
            then hmap_set_error "malloc failed" "hmap_complex_key_set_value" error_malloc_failed
            else do
              lift (init node_value (linked (record { key = key_buff; value = value })))
              lift (ll_add_node env.alloc bucket.value node_value LlAddOp.append 0)
              lift
                  (store_bucket array i (record bucket { value_len = add_size bucket.value_len 1 }))
              modify λ hmap. record hmap { collisions = add_size hmap.collisions 1 }

unfoldable pub hmap_complex_key_unset_value : Env → HmapBucket → List ℕ → HmapCmd Ptr
unfolding unset_loop
hmap_complex_key_unset_value env bucket key = do
  l ← lift (load_list bucket.value)
  lift (unset_loop env.sip key env.rounds bucket.value l.first 0)
