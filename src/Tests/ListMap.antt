-- ===== src/Tests/ListMap.antt =====
-- A hash map of one bucket, which is a list of two keys.
use neonrt.Base.{
  ℕ, zero, suc, ◌+◌, ◌<◌, length, refl, none, some, List, [], ◌∷◌, true, false, arith, ◌==◌,
  if◌then◌else◌,
}
use neonrt.Memory.{
  Ptr, null, HmapBucket, LinkedList, ManagedBuffer, buckets, buff, block, list, linked, raw, Heap,
}
use neonrt.Memory.Rules.{Holds}
use neonrt.Memory.Frame.{Below}
use neonrt.Buffer.Rules.{IsBuff, KeyAt}
use neonrt.LinkedList.Seg.{ll_node, nil, cons}
use neonrt.LinkedList.Add.{IsList}
use neonrt.HashMap.{Hmap, default_seed}
use neonrt.HashMap.Lookup.{Reaches}
use neonrt.HashMap.Slot.{Entry, Entries, none_left, entry, Slot, chain}
use neonrt.HashMap.Represent.{Contents, Place, Table, Represents}
use neonrt.HashMap.Settle.{Valued}
use neonrt.HashMap.Located.{Located}
use neonrt.SipWrapper.{wrap_siphash}
use neonrt.Tests.Roomy.{small_map, echo}

-- A map of one bucket, which is a list of two keys.
abbrev pub list_map : Hmap
list_map = record small_map { self = 10; capacity = 1; set = 2 }

abbrev pub list_bucket : HmapBucket
list_bucket = record { key = null; value = 30; value_len = 2; is_complex = true }

abbrev pub list_header : LinkedList
list_header = record { first = 31; last = 32; len = 2 }

abbrev pub key_struct : Ptr → ManagedBuffer
key_struct p = record {
  bytes = p;
  len = 1;
  ref_ct = 0;
  needs_sync = false;
  lock = false;
  is_utf8 = 0;
}

unfoldable pub list_memory : Heap
list_memory p =
    if p == 10
    then some (raw 352)
    else if p == 20
    then some (buckets (list_bucket ∷ []))
    else if p == 30
    then some (list list_header)
    else if p == 31
    then some (ll_node 32 41)
    else if p == 32
    then some (ll_node null 42)
    else if p == 41
    then some (linked (record { key = 50; value = 900 }))
    else if p == 42
    then some (linked (record { key = 52; value = 901 }))
    else if p == 50
    then some (buff (key_struct 51))
    else if p == 51
    then some (block (1 ∷ []))
    else if p == 52
    then some (buff (key_struct 53))
    else if p == 53
    then some (block (2 ∷ []))
    else none

pub list_memory-IsList : IsList list_memory 30 list_header ((31, 41) ∷ []) 42
unfolding list_memory
list_memory-IsList = record {
  header = record { ne_null = omega arith; at = refl };
  chain = cons (record { ne_null = omega arith; at = refl }) refl nil;
  back = record { ne_null = omega arith; at = refl };
  distinct = refl;
  count = refl;
}

pub first_is : IsBuff list_memory 50 (key_struct 51) (1 ∷ [])
unfolding list_memory
first_is = record {
  struct = record { ne_null = omega arith; at = refl };
  stored = record { ne_null = omega arith; at = refl };
  len_in = omega arith;
}

first_key : KeyAt list_memory 50 (1 ∷ [])
first_key = record {
  struct = key_struct 51;
  bytes = 1 ∷ [];
  is = first_is;
  holds = refl;
  unlocked = refl;
}

pub second_is : IsBuff list_memory 52 (key_struct 53) (2 ∷ [])
unfolding list_memory
second_is = record {
  struct = record { ne_null = omega arith; at = refl };
  stored = record { ne_null = omega arith; at = refl };
  len_in = omega arith;
}

second_key : KeyAt list_memory 52 (2 ∷ [])
second_key = record {
  struct = key_struct 53;
  bytes = 2 ∷ [];
  is = second_is;
  holds = refl;
  unlocked = refl;
}

abbrev pub two_keys : List Entry
two_keys = (1 ∷ [], 900) ∷ (2 ∷ [], 901) ∷ []

pub two_keys-Entries : Entries list_memory ((31, 41) ∷ (32, 42) ∷ []) two_keys
unfolding list_memory
two_keys-Entries =
    entry (record { ne_null = omega arith; at = refl }) first_key
      (entry (record { ne_null = omega arith; at = refl }) second_key none_left)

pub list_array : Holds list_memory 20 (buckets (list_bucket ∷ []))
unfolding list_memory
list_array = record { ne_null = omega arith; at = refl }

pub two_keys-Slot : Slot list_memory list_bucket 30 32 two_keys
two_keys-Slot = chain {l = list_header} refl refl refl list_memory-IsList two_keys-Entries

-- The only bucket has both keys.
abbrev pub two_at : Contents
two_at zero = two_keys
two_at (suc i) = []

list-Place :
    (i : ℕ) → i < 1 → Place list_memory (list_bucket ∷ []) i 30 32 (two_at i) (λ a. 0) (0 + i)
list-Place zero lt = record {
  bucket = list_bucket;
  found = refl;
  slot = chain {l = list_header} refl refl refl list_memory-IsList two_keys-Entries;
  owned = (refl, (refl, refl, refl, (refl, refl, refl, tt)));
}
list-Place (suc i) lt = absurd (omega arith)

list-Table : Table list_memory (list_bucket ∷ []) 1 0 (λ a. 0) two_at
list-Table = record { sized = refl; headers = λ i. 30; ends = λ i. 32; places = list-Place }

struct_block : Holds list_memory 10 (raw 352)
unfolding list_memory
struct_block = record { ne_null = omega arith; at = refl }

pub list_map-Represents : Represents list_map list_memory two_at
list_map-Represents = record {
  struct = struct_block;
  unlocked = refl;
  recoverable = refl;
  bs = list_bucket ∷ [];
  array = list_array;
  capacity_ne = omega arith;
  own = λ a. 0;
  table = list-Table;
}

-- The same map with the hash function of the run time.
abbrev pub hashed_map : Hmap
hashed_map = record list_map { hash_fn = wrap_siphash echo; seed = default_seed }

pub hashed_map-Represents : Represents hashed_map list_memory two_at
hashed_map-Represents = record {
  struct = struct_block;
  unlocked = refl;
  recoverable = refl;
  bs = list_bucket ∷ [];
  array = list_array;
  capacity_ne = omega arith;
  own = λ a. 0;
  table = list-Table;
}

pub two_at-length : (i : ℕ) → length (two_at i) < 9
two_at-length zero = omega arith
two_at-length (suc i) = omega arith

pub two_at-Located : (i : ℕ) → Located echo 1 i (two_at i)
two_at-Located zero = (ground arith, (ground arith, tt))
two_at-Located (suc i) = tt

pub two_at-Valued : (i : ℕ) → Valued (two_at i)
two_at-Valued zero = (omega arith, (omega arith, tt))
two_at-Valued (suc i) = tt

pub list_memory-Below : Below list_memory 54
unfolding list_memory
list_memory-Below q le = ground arith

pub list_map-Reaches : Reaches list_map list_memory (1 ∷ []) 1 (list_bucket ∷ [])
list_map-Reaches = record {
  unlocked = refl;
  recoverable = refl;
  hashes = refl;
  array = list_array;
  sized = refl;
  capacity_ne = omega arith;
}
