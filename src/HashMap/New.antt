-- ===== src/HashMap/New.antt =====
-- A map that `hmap_new` has made.
use neonrt.Base.{
  ap, ℕ, ◌*◌, ◌/◌, ◌^◌, ◌≡◌, ◌≢◌, ◌≤◌, ◌<◌, refl, List, [], if◌then◌else◌, length-replicate,
  get_elem?-replicate, ◌%◌, false, none, some, arith, ◌==◌, get_elem?, replicate,
}
use neonrt.Word.{mul_size}
use neonrt.Memory.{Ptr, null, size_of, raw, buckets, Heap, write, ok, fault}
use neonrt.Memory.Rules.{Holds, allocate-ok, Holds-allocate, init-ok, Holds-write}
use neonrt.Memory.Rules.{Holds-write_ne, allocate_unused}
use neonrt.Memory.{HmapBucket}
use neonrt.HashMap.{
  Env, Hmap, empty_bucket, error_key_mismatch, default_capacity, default_healthy_threshold,
  default_seed, default_error_callback, default_unhealthy,
}
use neonrt.SipWrapper.{wrap_siphash}
use neonrt.SipWrapper.Laws.{wrap_siphash_total}
use neonrt.HashMap.Closed.{failed}
use neonrt.HashMap.Table.{hmap_new, hmap_get}
use neonrt.HashMap.Check.{hmap_check}
use neonrt.HashMap.Lookup.{Reaches, hmap_get-vacant, hmap_hash-digest, load_bucket-out}

module _ (env : Env) (capacity healthy_threshold seed : ℕ) (h : Heap) where
  abbrev pub with_struct : Heap
  with_struct = write h (env.alloc.malloc 352 h) (some (raw 352))

  abbrev pub array : Ptr
  array = env.alloc.malloc (mul_size 32 capacity) with_struct

  -- The struct of a new map.
  abbrev pub fresh : Hmap
  fresh = record {
    self = env.alloc.malloc 352 h;
    capacity = if capacity == 0 then default_capacity else capacity;
    set = 0;
    load_factor = 0;
    unhealthy_threshold =
        if healthy_threshold == 0 then default_healthy_threshold else healthy_threshold;
    seed = if seed == 0 then default_seed else seed;
    collisions = 0;
    hash_fn = wrap_siphash env.sip;
    bucket_array = array;
    resize_bound = 0;
    error_callback = default_error_callback;
    unhealthy_callback = default_unhealthy;
    last_error_msg = ("", "");
    last_error_code = 0;
    unrecoverable_error = false;
    locked = false;
    reports = [];
  }

  abbrev pub cleared : List HmapBucket
  cleared = replicate (mul_size 32 capacity / 32) empty_bucket

  module _ (got : (env.alloc.malloc 352 h == null) ≡ false) (got' : (array == null) ≡ false) where
    abbrev pub made : Heap
    made =
        write (write with_struct array (some (raw (mul_size 32 capacity)))) array
          (some (buckets cleared))

    pub hmap_new-ok : hmap_new env capacity healthy_threshold seed none h ≡ ok (some fresh) made
    unfolding hmap_new
    hmap_new-ok =
        let block = Holds-allocate env.alloc (mul_size 32 capacity) with_struct got' in
        let fits : size_of (buckets cleared) ≤ mul_size 32 capacity =
          omega (arith, length-replicate (mul_size 32 capacity / 32) empty_bucket) in
        rw
          (
            allocate-ok env.alloc 352 h got,
            got,
            allocate-ok env.alloc (mul_size 32 capacity) with_struct got',
            init-ok block (buckets cleared) fits,
          )
          refl

    pub Holds-made : Holds made array (buckets cleared)
    Holds-made = Holds-write (Holds-allocate env.alloc (mul_size 32 capacity) with_struct got') _

    pub Holds-struct : Holds made fresh.self (raw 352)
    Holds-struct =
        let struct = Holds-allocate env.alloc 352 h got in
        let unused = allocate_unused env.alloc (mul_size 32 capacity) with_struct got' in
        let ne : fresh.self ≢ array = λ e. ground (arith, struct.at, unused, ap with_struct e) in
        Holds-write_ne array _ (Holds-write_ne array _ struct ne) ne

    hmap_get-fresh :
        (key : List ℕ)
        → 32 * capacity < 2 ^ 64
        → capacity ≢ 0
        → hmap_get env key fresh made
          ≡ ok (null, failed "hmap_get" "key does not exist" error_key_mismatch fresh) made
    hmap_get-fresh key room some_buckets =
        let places : mul_size 32 capacity / 32 ≡ capacity = omega (arith, room) in
        let digest = wrap_siphash_total env.sip key (if seed == 0 then default_seed else seed) in
        let reaches : Reaches fresh made key digest.0 cleared = record {
          unlocked = refl;
          recoverable = refl;
          hashes = digest.1;
          array = Holds-made;
          sized = ground (arith, length-replicate (mul_size 32 capacity / 32) empty_bucket);
          capacity_ne = ground arith;
        } in
        let inside =
          get_elem?-replicate (mul_size 32 capacity / 32) empty_bucket (digest.0 % fresh.capacity)
            (ground arith) in
        hmap_get-vacant env reaches inside refl refl

    hmap_get-no_bucket : (key : List ℕ) → capacity ≡ 0 → hmap_get env key fresh made ≡ fault
    unfolding hmap_get hmap_check
    hmap_get-no_bucket key none_given =
        let digest = wrap_siphash_total env.sip key (if seed == 0 then default_seed else seed) in
        let some_places : fresh.capacity ≢ 0 = ground arith in
        let no_places : mul_size 32 capacity / 32 ≡ 0 = ground arith in
        let missing : get_elem? cleared (digest.0 % fresh.capacity) ≡ none = rw no_places refl in
        rw
          (
            hmap_hash-digest fresh made digest.1 some_places,
            load_bucket-out (digest.0 % fresh.capacity) Holds-made missing,
          )
          refl

    -- Where memory suffices for a map of `capacity` buckets, at least one, and their size is below
    -- 2 ^ 64, `hmap_new` without a hash function returns a map that no key is in: a `hmap_get` of any
    -- key finds an empty bucket, reports that the key does not exist, and leaves memory as it is.
    pub hmap_new_lem :
        (key : List ℕ)
        → 32 * capacity < 2 ^ 64
        → capacity ≢ 0
        → (hmap_new env capacity healthy_threshold seed none h ≡ ok (some fresh) made)
          × (hmap_get env key fresh made
              ≡ ok (null, failed "hmap_get" "key does not exist" error_key_mismatch fresh) made)
    hmap_new_lem key room some_buckets = (hmap_new-ok, hmap_get-fresh key room some_buckets)

    -- Where memory suffices, the map that `hmap_new` returns for a capacity of 0 says that it has 16
    -- buckets and has none: `hmap_get` of any key is out of bounds.
    hmap_new-zero :
        (key : List ℕ)
        → capacity ≡ 0
        → (hmap_new env capacity healthy_threshold seed none h ≡ ok (some fresh) made)
          × (fresh.capacity ≡ 16)
          × (hmap_get env key fresh made ≡ fault)
    hmap_new-zero key none_given = (hmap_new-ok, ground arith, hmap_get-no_bucket key none_given)
