-- ===== src/HashMap.antt =====
-- containers/hashmap.c and hashmap.h: the struct of a hash map, and commands that read and write it.
-- A `hmap_t` is a record that each function is given and gives back. Its bucket array, and all that the
-- buckets point to, is in memory. The error messages are kept as the name of the function and the text.
pub mod Check
pub mod Chain
pub mod Resize
pub mod Table
pub mod Closed
pub mod Lookup
pub mod Update
pub mod Slot
pub mod Find
pub mod Push
pub mod Pair
pub mod Chained
pub mod Represent
pub mod Apart
pub mod Insert
pub mod Dict
pub mod Session
pub mod Default
pub mod Unset
pub mod UnsetList
pub mod Shadow
pub mod Regrow
pub mod Release
pub mod Loan
pub mod Walk
pub mod Arrays
pub mod Settle
pub mod Scatter
pub mod Move
pub mod Rehash
pub mod Discard
pub mod Freed
pub mod FreeBuckets
pub mod Located
pub mod Grow
pub mod Kept
pub mod Outgrow
pub mod Totals
pub mod Thrive
pub mod Growth
pub mod Lifetime
pub mod New
use Prim.Native.String.{String}
use neonrt.Base.{ℕ, ◌-◌, ◌^◌, ◌%◌, ◌<◌, Bool, true, false, Option, none, some, List, [], ◌∷◌}
use neonrt.Base.{get_elem?, ltb, ◌==◌, if◌then◌else◌, length}
use neonrt.Base
use neonrt.Memory.{Ptr, null, HmapBucket, buckets, Heap, Run, ok, fault, out_of_fuel, Cmd}
use neonrt.Memory.{Allocator, load_buckets, write}
use neonrt.SipWrapper.{SipHash}

-- `default_error_callback`, which does nothing, or a function of the program's.
pub data ErrorCallback : Type 0 where
  default_error_callback : ErrorCallback
  user_error_callback : ℕ → ErrorCallback

pub data UnhealthyCallback : Type 0 where
  default_unhealthy : UnhealthyCallback
  user_unhealthy : ℕ → UnhealthyCallback

-- One call of an error callback.
pub record Report : Type 0 where
  pub callback : ErrorCallback
  pub fn_name : String
  pub msg : String
  pub code : ℕ

-- `struct hmap`. `self` is the address of the struct, and `reports` are the calls of the error
-- callbacks so far, latest first; neither is a field in C.
pub record Hmap : Type 0 where
  pub self : Ptr
  pub capacity : ℕ
  pub set : ℕ
  pub load_factor : ℕ
  pub unhealthy_threshold : ℕ
  pub seed : ℕ
  pub collisions : ℕ
  pub hash_fn : List ℕ → ℕ → Option ℕ
  pub bucket_array : Ptr
  pub resize_bound : ℕ
  pub error_callback : ErrorCallback
  pub unhealthy_callback : UnhealthyCallback
  pub last_error_msg : String × String
  pub last_error_code : ℕ
  pub unrecoverable_error : Bool
  pub locked : Bool
  pub reports : List Report

-- The constants of hashmap.h.
abbrev pub default_capacity : ℕ
default_capacity = 16

abbrev pub default_healthy_threshold : ℕ
default_healthy_threshold = 75

abbrev pub default_seed : ℕ
default_seed = 0x19E3779B97F4A7C1

abbrev pub threshold_disable : ℕ
threshold_disable = 2 ^ 64 - 1

abbrev pub error_malloc_failed : ℕ
error_malloc_failed = 1

abbrev pub error_key_mismatch : ℕ
error_key_mismatch = 2

abbrev pub error_too_large : ℕ
error_too_large = 5

abbrev pub error_rehash_failed : ℕ
error_rehash_failed = 5

abbrev pub error_locked : ℕ
error_locked = 0xE10

abbrev pub error_unrecoverable : ℕ
error_unrecoverable = 0xDEADBEEF

-- A command that may also change the map's struct.
abbrev pub HmapCmd : Type 0 → Type 0
HmapCmd A = Hmap → Heap → Run (A × Hmap)

abbrev pub pure : {A : Type 0} → A → HmapCmd A
pure a m h = ok (a, m) h

module _ {A B : Type 0} where
  abbrev pub and_then : Run (A × Hmap) → (A → HmapCmd B) → Run (B × Hmap)
  and_then (ok (a, m) h) k = k a m h
  and_then fault k = fault
  and_then out_of_fuel k = out_of_fuel

  infixl 5 ◌>>=◌ ◌>>◌
  abbrev pub ◌>>=◌ : HmapCmd A → (A → HmapCmd B) → HmapCmd B
  c >>= k = λ m h. and_then (c m h) k

  abbrev pub ◌>>◌ : HmapCmd A → HmapCmd B → HmapCmd B
  c >> d = c >>= λ _. d

abbrev pub with_map : {A : Type 0} → Run A → Hmap → Run (A × Hmap)
with_map (ok a h) m = ok (a, m) h
with_map fault m = fault
with_map out_of_fuel m = out_of_fuel

-- A command on memory alone.
abbrev pub lift : {A : Type 0} → Cmd A → HmapCmd A
lift c m h = with_map (c h) m

abbrev pub get : HmapCmd Hmap
get m h = ok (m, m) h

abbrev pub modify : (Hmap → Hmap) → HmapCmd (Unit {0})
modify f m h = ok (tt, f m) h

-- What the map's functions call that is not theirs: `malloc`, SipHash, and the program's own unhealthy
-- callbacks, by number, which are given `hmap_resize` and the load. `rounds` bounds the walks along
-- lists.
pub record Env : Type 0 where
  pub alloc : Allocator
  pub sip : SipHash
  pub user_callback : ℕ → (ℕ → HmapCmd (Unit {0})) → ℕ → HmapCmd (Unit {0})
  pub rounds : ℕ

-- `array[i]` and `array[i] = b`
unfoldable pub load_bucket : Ptr → ℕ → Cmd HmapBucket
load_bucket array i h = elim (load_buckets array h) [
  | ok bs h' ↦ (elim (get_elem? bs i) [ none ↦ fault | some b ↦ ok b h' ])
  | fault ↦ fault
  | out_of_fuel ↦ out_of_fuel
]

unfoldable pub store_bucket : Ptr → ℕ → HmapBucket → Cmd (Unit {0})
store_bucket array i b h = elim (load_buckets array h) [
  | ok bs h' ↦
      if ltb i (length bs) then ok tt (write h' array (some (buckets (Base.set bs i b)))) else fault
  | fault ↦ fault
  | out_of_fuel ↦ out_of_fuel
]

abbrev pub empty_bucket : HmapBucket
empty_bucket = record { key = null; value = null; value_len = 0; is_complex = false }
