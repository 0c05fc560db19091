-- ===== src/HashMap/Closed.antt =====
-- Maps that are locked or in an unrecoverable error, and `hmap_resize` without memory.
use Prim.Native.String.{String}
use neonrt.Base.{
  ℕ, suc, ◌∷◌, ◌≡◌, refl, List, Bool, true, false, ◌||◌, ◌&&◌, inl, inr, Bool-cases, arith, ◌==◌,
  ltb, if◌then◌else◌,
}
use neonrt.Word.{mul_size}
use neonrt.Memory.{Ptr, null, Heap, ok}
use neonrt.Memory.Rules.{allocate-null}
use neonrt.HashMap.{Hmap, Env, error_locked, error_unrecoverable, error_malloc_failed}
use neonrt.HashMap.Check.{hmap_check, hmap_set_error}
use neonrt.HashMap.Resize.{hmap_resize}
use neonrt.HashMap.Table.{hmap_get, hmap_set, hashmap_unset}

-- A map after an error: the message, the code, and one more call of its callback.
abbrev pub failed : String → String → ℕ → Hmap → Hmap
failed fn_name msg code m = record m {
  last_error_msg = (fn_name, msg);
  last_error_code = code;
  reports =
      record { callback = m.error_callback; fn_name = fn_name; msg = msg; code = code } ∷ m.reports;
}

-- What an access called `fn_name` leaves of a map that refuses it; the lock is looked at first.
abbrev pub refusal : String → Hmap → Hmap
refusal fn_name m =
    if m.locked
    then failed fn_name "hashmap is locked" error_locked m
    else failed fn_name "hashmap is in an unrecoverable error state" error_unrecoverable m

hmap_check-closed :
    (fn_name : String) (m : Hmap) (h : Heap)
    → (m.locked || m.unrecoverable_error) ≡ true
    → hmap_check fn_name m h ≡ ok (false, refusal fn_name m) h
unfolding hmap_check hmap_set_error
hmap_check-closed fn_name m h closed = elim (Bool-cases m.locked) [
  | inl e ↦ rw e refl
  | inr e ↦ let e' : m.unrecoverable_error ≡ true = ground arith in rw (e, e') refl
]

-- On a map that is locked or in an unrecoverable error `hmap_get`, `hmap_set` and `hashmap_unset` do
-- nothing to memory and return NULL, false and NULL; each reports the reason once, the lock first.
pub closed_map_refuses :
    (env : Env) (key : List ℕ) (value : Ptr) (allow_update : Bool) (m : Hmap) (h : Heap)
    → (m.locked || m.unrecoverable_error) ≡ true
    → (hmap_get env key m h ≡ ok (null, refusal "hmap_get" m) h)
      × (hmap_set env key value allow_update m h ≡ ok (false, refusal "hmap_set" m) h)
      × (hashmap_unset env key m h ≡ ok (null, refusal "hashmap_unset" m) h)
unfolding hmap_get hmap_set hashmap_unset
closed_map_refuses env key value allow_update m h closed = (
  rw (hmap_check-closed "hmap_get" m h closed) refl,
  rw (hmap_check-closed "hmap_set" m h closed) refl,
  rw (hmap_check-closed "hashmap_unset" m h closed) refl,
)

-- A locked map after a resize that found no memory.
abbrev pub backed_off : Hmap → Hmap
backed_off m =
    failed "hmap_resize" "malloc failed during resize backing off" error_malloc_failed
      (record m { locked = true })

-- Where memory is exhausted, and the new capacity is not over the bound of the map, `hmap_resize`
-- keeps the capacity, the buckets and memory, and reports the error; but it leaves the map
-- locked, so that a `hmap_get` after it is refused.
pub hmap_resize-null :
    (depth : ℕ) (env : Env) (new_cap : ℕ) (key : List ℕ) (m : Hmap) (h : Heap)
    → (env.alloc.malloc (mul_size new_cap 32) h == null) ≡ true
    → (ltb 0 m.resize_bound && ltb m.resize_bound new_cap) ≡ false
    → (hmap_resize (suc depth) env new_cap m h ≡ ok (tt, backed_off m) h)
      × (hmap_get env key (backed_off m) h ≡ ok (null, refusal "hmap_get" (backed_off m)) h)
unfolding hmap_resize hmap_set_error
hmap_resize-null depth env new_cap key m h full within = (
  rw (within, allocate-null env.alloc (mul_size new_cap 32) h full) refl,
  (closed_map_refuses env key null false (backed_off m) h refl).0,
)
