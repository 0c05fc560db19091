-- ===== src/HashMap/Unset.antt =====
-- `hashmap_unset` at a bucket of one key.
use neonrt.Base
use neonrt.Base.{
  ℕ, zero, suc, ◌+◌, ◌/◌, ◌%◌, ◌^◌, ◌≤◌, ◌<◌, ◌≡◌, ◌≢◌, refl, sym, ap, ◌∙◌, Bool, true, false, some,
  none, List, [], ◌∷◌, ◌++◌, arith, ◌==◌, ltb, if◌then◌else◌, get_elem?, get_elem?-set_self,
  set-set, length, length-set, length-append,
}
use neonrt.Word.{mul_size, sub_size}
use neonrt.Memory.{null, ManagedBuffer, HmapBucket, buckets, Heap, ok, write}
use neonrt.Memory.Rules.{Holds, not_null, Holds-write, Holds-write_ne}
use neonrt.Buffer.Drain.{buff_free-last}
use neonrt.Buffer.Rules.{IsBuff, apart}
use neonrt.HashMap.{Hmap, Env, error_key_mismatch}
use neonrt.HashMap.Table.{hmap_get, hashmap_unset}
use neonrt.HashMap.Closed.{failed}
use neonrt.HashMap.Lookup.{
  Reaches, passes, hmap_hash-ok, load_bucket-ok, store_bucket-ok, update_load-healthy,
  hmap_get-vacant,
}

-- One key less, with the load of before.
abbrev pub uncounted : Hmap → Hmap
uncounted m = record m { load_factor = mul_size m.set 100 / m.capacity; set = sub_size m.set 1 }

module _ (env : Env) {m : Hmap} {h : Heap} {key : List ℕ} {digest : ℕ} {bs : List HmapBucket}
    {b : HmapBucket} (r : Reaches m h key digest bs)
    (found : get_elem? bs (digest % m.capacity) ≡ some b) where
  in_range : ltb (digest % m.capacity) (length bs) ≡ true
  in_range = ground (arith, r.sized, r.capacity_ne)

  -- The bucket without its value, and without its key.
  abbrev dropped : HmapBucket
  dropped = record { key = b.key; value = null; value_len = b.value_len; is_complex = false }

  abbrev emptied : HmapBucket
  emptied = record { key = null; value = null; value_len = b.value_len; is_complex = false }

  -- On a map that takes accesses, at a bucket that is no list and holds any key, in a buffer that is not
  -- leased out, and with a load within the threshold, `hashmap_unset` returns the bucket's value,
  -- frees the buffer, and counts one key less, after the load is computed; it does not compare the key
  -- given with the key held. A `hmap_get` after it reports that the key does not exist.
  pub unset_then_get :
      {kb : ManagedBuffer} {ks : List ℕ}
      → b.is_complex ≡ false
      → IsBuff h b.key kb ks
      → kb.lock ≡ false
      → kb.ref_ct ≡ 0
      → ltb m.unhealthy_threshold (mul_size m.set 100 / m.capacity) ≡ false
      → (h' : Heap) × (hashmap_unset env key m h ≡ ok (b.value, uncounted m) h')
        × (h' b.key ≡ none)
        × (h' kb.bytes ≡ none)
        × (hmap_get env key (uncounted m) h'
            ≡ ok (null, failed "hmap_get" "key does not exist" error_key_mismatch (uncounted m)) h')
  unfolding hashmap_unset write
  unset_then_get {kb} {ks} plain is free unleased healthy =
      let k = digest % m.capacity in
      let bs1 = Base.set bs k dropped in
      let h1 = write h m.bucket_array (some (buckets bs1)) in
      let ne : b.key ≢ m.bucket_array = λ e. ground (arith, is.struct.at, r.array.at, ap h e) in
      let ne' : kb.bytes ≢ m.bucket_array = λ e. ground (arith, is.stored.at, r.array.at, ap h e) in
      let at1 : Holds h1 m.bucket_array (buckets bs1) = Holds-write r.array _ in
      let is1 : IsBuff h1 b.key kb ks = record {
        struct = Holds-write_ne m.bucket_array _ is.struct ne;
        stored = Holds-write_ne m.bucket_array _ is.stored ne';
        len_in = is.len_in;
      } in
      let h2 = write (write h1 kb.bytes none) b.key none in
      let at2 : Holds h2 m.bucket_array (buckets bs1) =
        Holds-write_ne b.key none (Holds-write_ne kb.bytes none at1 (λ e. ne' (sym e)))
          (λ e. ne (sym e)) in
      let in1 : ltb k (length bs1) ≡ true = ground (arith, length-set bs k dropped, in_range) in
      let bs2 = Base.set bs1 k emptied in
      let h3 = write h2 m.bucket_array (some (buckets bs2)) in
      let reach : Reaches (uncounted m) h3 key digest bs2 = record {
        unlocked = r.unlocked;
        recoverable = r.recoverable;
        hashes = r.hashes;
        array = Holds-write at2 _;
        sized = length-set bs1 k _ ∙ (length-set bs k dropped ∙ r.sized);
        capacity_ne = r.capacity_ne;
      } in
      (
        h3,
        rw
            (
              passes env r "hashmap_unset",
              hmap_hash-ok env r,
              load_bucket-ok k r.array found,
              plain,
              not_null is.struct,
              store_bucket-ok k dropped r.array in_range,
              buff_free-last is1 free unleased,
              store_bucket-ok k emptied at2 in1,
            )
            (rw (update_load-healthy env m h3 r.capacity_ne healthy) refl),
        ground (arith, ne),
        ground (arith, ne', apart is),
        hmap_get-vacant env reach (get_elem?-set_self bs1 k _ (ground (arith, in1))) refl refl,
      )
