-- ===== src/HashMap/Update.antt =====
-- `hmap_set` at a bucket that is not a list, and `hmap_get` after it.
use neonrt.Base
use neonrt.Base.{
  ℕ, ◌+◌, ◌*◌, ◌/◌, ◌%◌, ◌≡◌, ◌≢◌, ◌<◌, refl, inl, inr, Bool-cases, ◌∙◌, sym, ap, List, Bool, true,
  false, none, some, arith, ◌==◌, ltb, get_elem?, get_elem?-set_self, length, length-set,
  take-length, take, if◌then◌else◌,
}
use neonrt.Word.{add_size, mul_size}
use neonrt.Memory.{Ptr, null, ManagedBuffer, HmapBucket, buckets, Heap, write, ok}
use neonrt.Memory.Rules.{Holds, not_null, Holds-write, Holds-write_ne}
use neonrt.Buffer.{buff_new}
use neonrt.Buffer.Rules.{IsBuff}
use neonrt.Buffer.New.{Created, unleased}
use neonrt.Buffer.Compare.{runtime_hash, buff_cmp_raw_lem}
use neonrt.HashMap.{Hmap, pure, and_then, Env, error_key_mismatch}
use neonrt.HashMap.Check.{hmap_set_error}
use neonrt.HashMap.Closed.{failed}
use neonrt.HashMap.Resize.{update_load_factor}
use neonrt.HashMap.Table.{hmap_get, hmap_set}
use neonrt.HashMap.Lookup.{
  Reaches, passes, hmap_hash-ok, hmap_get-vacant, hmap_get-key, load_bucket-ok, store_bucket-ok,
  update_load-healthy,
}

module _ (env : Env) {m : Hmap} {h : Heap} {key : List ℕ} {digest : ℕ} {bs : List HmapBucket}
    (r : Reaches m h key digest bs) where
  module _ {b : HmapBucket} (found : get_elem? bs (digest % m.capacity) ≡ some b)
      (plain : b.is_complex ≡ false) where
    -- The load that `hmap_set` finds after one more key.
    abbrev pub load_after : ℕ
    load_after = mul_size (add_size m.set 1) 100 / m.capacity

    abbrev pub counted : Hmap
    counted = record m { set = add_size m.set 1; load_factor = load_after }

    in_range : ltb (digest % m.capacity) (length bs) ≡ true
    in_range = ground (arith, r.sized, r.capacity_ne)

    abbrev pub filled : Ptr → Ptr → List HmapBucket
    filled self value =
        Base.set bs (digest % m.capacity)
          (record b { key = self; value = value; is_complex = false })

    -- What is left once the bucket is filled is the load.
    pub hmap_set-filled :
        {self : Ptr} {h₁ : Heap} (value : Ptr) (allow_update : Bool)
        → (b.key == null) ≡ true
        → buff_new env.alloc key (length key) h ≡ ok self h₁
        → Holds h₁ m.bucket_array (buckets bs)
        → hmap_set env key value allow_update m h
          ≡ and_then
              (update_load_factor env
                (record m { set = add_size m.set 1 })
                (write h₁ m.bucket_array (some (buckets (filled self value)))))
              (λ _. pure true)
    unfolding hmap_set
    hmap_set-filled {self} value allow_update vacant created array =
        rw
          (
            passes env r "hmap_set",
            hmap_hash-ok env r,
            load_bucket-ok (digest % m.capacity) r.array found,
            plain,
            vacant,
            created,
            store_bucket-ok (digest % m.capacity)
                (record b { key = self; value = value; is_complex = false }) array in_range,
          )
          refl

    pub hmap_set-vacant :
        {self : Ptr} {h₁ : Heap} (value : Ptr) (allow_update : Bool)
        → (b.key == null) ≡ true
        → ltb m.unhealthy_threshold load_after ≡ false
        → buff_new env.alloc key (length key) h ≡ ok self h₁
        → Holds h₁ m.bucket_array (buckets bs)
        → hmap_set env key value allow_update m h
          ≡ ok (true, counted) (write h₁ m.bucket_array (some (buckets (filled self value))))
    hmap_set-vacant value allow_update vacant healthy created array =
        hmap_set-filled value allow_update vacant created array
        ∙ rw (update_load-healthy env (record m { set = add_size m.set 1 }) _ r.capacity_ne healthy)
            refl

    -- The bucket is found again after it is filled.
    pub refilled :
        (self : Ptr) {h₁ : Heap} (value : Ptr)
        → Holds h₁ m.bucket_array (buckets bs)
        → Reaches counted
            (write h₁ m.bucket_array (some (buckets (filled self value))))
            key
            digest
            (filled self value)
    refilled self value array = record {
      unlocked = r.unlocked;
      recoverable = r.recoverable;
      hashes = r.hashes;
      array = Holds-write array _;
      sized = length-set bs (digest % m.capacity) _ ∙ r.sized;
      capacity_ne = r.capacity_ne;
    }

    pub refound :
        (self value : Ptr)
        → get_elem? (filled self value) (digest % m.capacity)
          ≡ some (record b { key = self; value = value; is_complex = false })
    refound self value = get_elem?-set_self bs (digest % m.capacity) _ (ground (arith, in_range))

    -- On a map that takes accesses, at an empty bucket that is no list, with a load that stays
    -- within the threshold, and where `buff_new` makes a buffer of the key, `hmap_set` returns
    -- true and counts one more key, and `hmap_get` of the key then returns the value.
    pub set_then_get :
        {self : Ptr} {h₁ : Heap} (value : Ptr) (allow_update : Bool)
        → (b.key == null) ≡ true
        → ltb m.unhealthy_threshold load_after ≡ false
        → buff_new env.alloc key (length key) h ≡ ok self h₁
        → Created h h₁ self (take (length key) key) (length key)
        → (h' : Heap) × (hmap_set env key value allow_update m h ≡ ok (true, counted) h')
          × (hmap_get env key counted h' ≡ ok (value, counted) h')
    set_then_get {self} {h₁} value allow_update vacant healthy created is =
        let ne-self : m.bucket_array ≢ self =
          λ e. ground (arith, is.unused.0, r.array.at, ap h e) in
        let ne-at : m.bucket_array ≢ is.at = λ e. ground (arith, is.unused.1, r.array.at, ap h e) in
        let array : Holds h₁ m.bucket_array (buckets bs) = record {
          ne_null = r.array.ne_null;
          at = is.same m.bucket_array ne-self ne-at ∙ r.array.at;
        } in
        let buffer : IsBuff (write h₁ m.bucket_array (some (buckets (filled self value)))) self
            (unleased is.at (length key)) (take (length key) key) =
          record {
            struct = Holds-write_ne m.bucket_array _ is.struct (λ e. ne-self (sym e));
            stored = Holds-write_ne m.bucket_array _ is.stored (λ e. ne-at (sym e));
            len_in = ground (arith, take-length key);
          } in
        let same : (runtime_hash env.sip (take (length key) (take (length key) key))
              == runtime_hash env.sip key)
            ≡ true =
          rw (take-length key, take-length key) (ground arith) in
        (
          _,
          hmap_set-vacant value allow_update vacant healthy created array,
          hmap_get-key env (refilled self value array) (refound self value) refl buffer
              ∙ rw same refl,
        )

    -- On a map that takes accesses, at an empty bucket that is no list, with a load that stays
    -- within the threshold, and where `buff_new` finds no memory for the key, `hmap_set` returns
    -- true and counts one more key all the same; `hmap_get` of the key then reports that it does
    -- not exist.
    pub set_without_memory :
        {h₁ : Heap} (value : Ptr) (allow_update : Bool)
        → (b.key == null) ≡ true
        → ltb m.unhealthy_threshold load_after ≡ false
        → buff_new env.alloc key (length key) h ≡ ok null h₁
        → ((q : Ptr) → h₁ q ≡ h q)
        → (h' : Heap) × (hmap_set env key value allow_update m h ≡ ok (true, counted) h')
          × (hmap_get env key counted h'
              ≡ ok (null, failed "hmap_get" "key does not exist" error_key_mismatch counted) h')
    set_without_memory {h₁} value allow_update vacant healthy created same =
        let array : Holds h₁ m.bucket_array (buckets bs) = record {
          ne_null = r.array.ne_null;
          at = same m.bucket_array ∙ r.array.at;
        } in
        (
          _,
          hmap_set-vacant value allow_update vacant healthy created array,
          hmap_get-vacant env (refilled null value array) (refound null value) refl refl,
        )

    -- On a map that takes accesses, at a bucket that holds one key with the hash of the key
    -- given, and with a load that stays within the threshold, `hmap_set` without `allow_update`
    -- returns false, reports that the key exists, and leaves memory as it is; with it, it returns
    -- true, replaces the value, and counts one more key.
    pub hmap_set_present :
        {kb : ManagedBuffer} {ks : List ℕ} (value : Ptr)
        → IsBuff h b.key kb ks
        → runtime_hash env.sip (take kb.len ks) ≡ runtime_hash env.sip key
        → ltb m.unhealthy_threshold load_after ≡ false
        → (hmap_set env key value false m h
            ≡ ok (false, failed "hmap_set" "key already exists" error_key_mismatch m) h)
          × (hmap_set env key value true m h
              ≡ ok
                  (true, counted)
                  (write h m.bucket_array (
                    some
                      (buckets (Base.set bs (digest % m.capacity) (record b { value = value }))))))
    unfolding hmap_set update_load_factor hmap_set_error
    hmap_set_present {kb} {ks} value is same healthy =
        let eq : (runtime_hash env.sip (take kb.len ks) == runtime_hash env.sip key) ≡ true =
          ground arith in
        let fetched = load_bucket-ok (digest % m.capacity) r.array found in
        let compared = buff_cmp_raw_lem env.sip is key in
        let stored =
          store_bucket-ok (digest % m.capacity) (record b { value = value; is_complex = false })
            r.array in_range in
        (
          rw
              (
                passes env r "hmap_set",
                hmap_hash-ok env r,
                fetched,
                plain,
                not_null is.struct,
                compared,
                eq,
              )
              refl,
          rw
              (
                passes env r "hmap_set",
                hmap_hash-ok env r,
                fetched,
                plain,
                not_null is.struct,
                compared,
                eq,
                stored,
              )
              (rw
                (update_load-healthy env (record m { set = add_size m.set 1 }) _ r.capacity_ne
                  healthy)
                refl),
        )
