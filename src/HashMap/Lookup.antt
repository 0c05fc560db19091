-- ===== src/HashMap/Lookup.antt =====
-- `hmap_get` at a bucket that is not a list.
use neonrt.Base
use neonrt.Base.{
  ℕ, ◌+◌, ◌*◌, ◌/◌, ◌%◌, ◌≡◌, ◌≢◌, ◌<◌, refl, inl, inr, Bool-cases, ◌∙◌, sym, ap, List, Bool, true,
  false, none, some, arith, ◌==◌, ltb, get_elem?, get_elem?-set_self, length, length-set,
  take-length, take, if◌then◌else◌,
}
use neonrt.Word.{mul_size}
use neonrt.Memory.{Ptr, null, fault, ManagedBuffer, HmapBucket, buckets, Heap, write, ok}
use neonrt.Memory.Rules.{Holds, not_null, load_buckets-ok}
use neonrt.Buffer.Rules.{IsBuff}
use neonrt.Buffer.Compare.{runtime_hash, buff_cmp_raw_lem}
use neonrt.HashMap.{Hmap, HmapCmd, Env, load_bucket, store_bucket, error_key_mismatch}
use neonrt.HashMap.Check.{hmap_check, hmap_set_error}
use neonrt.HashMap.Closed.{failed}
use neonrt.HashMap.Resize.{hmap_hash_private, update_load, update_load_factor, hmap_resize}
use neonrt.HashMap.Table.{hmap_get, hmap_hash}

-- A map that takes accesses, with the buckets `bs`, and whose hash function gives `digest` for `key`.
pub record Reaches (m : Hmap) (h : Heap) (key : List ℕ) (digest : ℕ) (bs : List HmapBucket)
    : Type 0 where
  pub unlocked : m.locked ≡ false
  pub recoverable : m.unrecoverable_error ≡ false
  pub hashes : m.hash_fn key m.seed ≡ some digest
  pub array : Holds h m.bucket_array (buckets bs)
  pub sized : length bs ≡ m.capacity
  pub capacity_ne : m.capacity ≢ 0

pub load_bucket-ok :
    {h : Heap} {p : Ptr} {bs : List HmapBucket} {b : HmapBucket} (i : ℕ)
    → Holds h p (buckets bs)
    → get_elem? bs i ≡ some b
    → load_bucket p i h ≡ ok b h
unfolding load_bucket
load_bucket-ok i e found = rw (load_buckets-ok e, load_bucket) (rw found refl)

pub load_bucket-out :
    {h : Heap} {p : Ptr} {bs : List HmapBucket} (i : ℕ)
    → Holds h p (buckets bs)
    → get_elem? bs i ≡ none
    → load_bucket p i h ≡ fault
unfolding load_bucket
load_bucket-out i e missing = rw (load_buckets-ok e, load_bucket) (rw missing refl)

pub store_bucket-ok :
    {h : Heap} {p : Ptr} {bs : List HmapBucket} (i : ℕ) (b : HmapBucket)
    → Holds h p (buckets bs)
    → ltb i (length bs) ≡ true
    → store_bucket p i b h ≡ ok tt (write h p (some (buckets (Base.set bs i b))))
unfolding store_bucket
store_bucket-ok i b e in_ = rw (load_buckets-ok e, store_bucket) (rw in_ refl)

-- A load within the threshold is recorded, and nothing else happens.
pub update_load-within :
    (env : Env) (resize : ℕ → HmapCmd (Unit {0})) (m : Hmap) (h : Heap)
    → m.capacity ≢ 0
    → ltb m.unhealthy_threshold (mul_size m.set 100 / m.capacity) ≡ false
    → update_load env resize m h
      ≡ ok (tt, record m { load_factor = mul_size m.set 100 / m.capacity }) h
unfolding update_load
update_load-within env resize m h nonempty healthy =
    let ne : (m.capacity == 0) ≡ false = ground arith in rw (ne, healthy) refl

pub update_load-healthy :
    (env : Env) (m : Hmap) (h : Heap)
    → m.capacity ≢ 0
    → ltb m.unhealthy_threshold (mul_size m.set 100 / m.capacity) ≡ false
    → update_load_factor env m h
      ≡ ok (tt, record m { load_factor = mul_size m.set 100 / m.capacity }) h
unfolding update_load_factor
update_load-healthy env m h = update_load-within env (hmap_resize env.rounds env) m h

pub hmap_hash-digest :
    (m : Hmap) (h : Heap) {key : List ℕ} {digest : ℕ}
    → m.hash_fn key m.seed ≡ some digest
    → m.capacity ≢ 0
    → hmap_hash key m h ≡ ok (digest % m.capacity, m) h
unfolding hmap_hash hmap_hash_private
hmap_hash-digest m h hashes nonempty =
    let ne : (m.capacity == 0) ≡ false = ground arith in rw (hashes, ne) refl

module _ (env : Env) {m : Hmap} {h : Heap} {key : List ℕ} {digest : ℕ} {bs : List HmapBucket}
    (r : Reaches m h key digest bs) where
  pub passes : (fn_name : _) → hmap_check fn_name m h ≡ ok (true, m) h
  unfolding hmap_check
  passes fn_name = rw (r.unlocked, r.recoverable) refl

  pub hmap_hash-ok : hmap_hash key m h ≡ ok (digest % m.capacity, m) h
  hmap_hash-ok = hmap_hash-digest m h r.hashes r.capacity_ne

  module _ {b : HmapBucket} (found : get_elem? bs (digest % m.capacity) ≡ some b)
      (plain : b.is_complex ≡ false) where
    pub hmap_get-vacant :
        (b.key == null) ≡ true
        → hmap_get env key m h
          ≡ ok (null, failed "hmap_get" "key does not exist" error_key_mismatch m) h
    unfolding hmap_get hmap_set_error
    hmap_get-vacant vacant =
        rw
          (
            passes "hmap_get",
            hmap_hash-ok,
            load_bucket-ok (digest % m.capacity) r.array found,
            plain,
            vacant,
          )
          refl

    -- On a map that takes accesses, at a bucket that is no list and holds a key, `hmap_get`
    -- returns the bucket's value where the key stored and the key given have the same hash under
    -- the seed of the run time, and otherwise NULL with the error that the keys do not match.
    -- Memory stays.
    pub hmap_get-key :
        {kb : ManagedBuffer} {ks : List ℕ}
        → IsBuff h b.key kb ks
        → hmap_get env key m h ≡ (
            if runtime_hash env.sip (take kb.len ks) == runtime_hash env.sip key
            then ok (b.value, m) h
            else ok (null, failed "hmap_get" "key does not match" error_key_mismatch m) h)
    unfolding hmap_get hmap_set_error
    hmap_get-key {kb} {ks} is =
        rw
          (
            passes "hmap_get",
            hmap_hash-ok,
            load_bucket-ok (digest % m.capacity) r.array found,
            plain,
            not_null is.struct,
            buff_cmp_raw_lem env.sip is key,
          )
          (elim (Bool-cases (runtime_hash env.sip (take kb.len ks) == runtime_hash env.sip key)) [
            | inl e ↦ rw e refl
            | inr e ↦ rw e refl
          ])
