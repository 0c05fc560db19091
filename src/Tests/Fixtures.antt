-- ===== src/Tests/Fixtures.antt =====
-- Memory, an allocator and hash functions to run the program on.
use neonrt.Base.{
  ℕ, zero, suc, ◌+◌, ◌≡◌, ◌≢◌, refl, Option, none, some, List, [], ◌∷◌, true, false, arith, ◌==◌,
  if◌then◌else◌, Option-cases, Bool, ltb, ◌^◌, ◌-◌, inl, inr, replicate,
}
use neonrt.Memory.{
  Ptr, null, Object, raw, block, buff, list, buckets, ManagedBuffer, LinkedList, HmapBucket, Heap,
  Allocator,
}
use neonrt.Memory.Rules.{Holds}
use neonrt.SipWrapper.{SipHash}
use neonrt.Buffer.{Utf8proc}
use neonrt.Buffer.Rules.{IsBuff}
use neonrt.LinkedList.Seg.{ll_node, nil, cons}
use neonrt.LinkedList.Add.{IsList}

abbrev is_free : Option Object → Bool
is_free none = true
is_free (some o) = false

-- The first free address of a few, from `p` on.
unfoldable pub pick : ℕ → Ptr → Heap → Ptr
pick zero p h = null
pick (suc k) p h = let rest = pick k (p + 1) h in if is_free (h p) then p else rest

pub pick_fresh : (k : ℕ) (p : Ptr) (h : Heap) → pick k p h ≢ null → h (pick k p h) ≡ none
unfolding pick
pick_fresh zero p h ne = ground arith
pick_fresh (suc k) p h ne = elim (Option-cases (h p)) [
  | inl e ↦ rw e e
  | inr (o, e) ↦
      let rest : pick k (p + 1) h ≢ null = λ z. ne (rw e z) in rw e (pick_fresh k (p + 1) h rest)
]

unfoldable pub first_fit : Allocator
unfolding pick
first_fit = record { malloc = λ n h. pick 8 100 h; malloc_fresh = λ n h ne. pick_fresh 8 100 h ne }

-- An allocator without memory.
unfoldable pub no_memory : Allocator
no_memory = record { malloc = λ n h. null; malloc_fresh = λ n h ne. absurd (ne refl) }

abbrev pub zeros : SipHash
zeros = record { siphash = λ input key. replicate 8 0; length-siphash = λ input key. refl }

abbrev pub small_buff : ManagedBuffer
small_buff = record {
  bytes = 51;
  len = 1;
  ref_ct = 0;
  needs_sync = false;
  lock = false;
  is_utf8 = 0;
}

abbrev pub two_nodes : LinkedList
two_nodes = record { first = 11; last = 12; len = 2 }

abbrev pub two_buckets : List HmapBucket
two_buckets =
    record { key = null; value = null; value_len = 0; is_complex = false }
    ∷ record { key = 50; value = 900; value_len = 0; is_complex = false }
    ∷ []

abbrev pub empty_list : LinkedList
empty_list = record { first = null; last = null; len = 0 }

unfoldable pub memory : Heap
memory p =
    if p == 10
    then some (list two_nodes)
    else if p == 11
    then some (ll_node 12 71)
    else if p == 12
    then some (ll_node null 72)
    else if p == 13
    then some (list empty_list)
    else if p == 19
    then some (raw 352)
    else if p == 20
    then some (buckets two_buckets)
    else if p == 50
    then some (buff small_buff)
    else if p == 51
    then some (block (1 ∷ []))
    else none

pub memory-IsList : IsList memory 10 two_nodes ((11, 71) ∷ []) 72
unfolding memory
memory-IsList = record {
  header = record { ne_null = omega arith; at = refl };
  chain = cons (record { ne_null = omega arith; at = refl }) refl nil;
  back = record { ne_null = omega arith; at = refl };
  distinct = refl;
  count = refl;
}

pub empty_at : Holds memory 13 (list empty_list)
unfolding memory
empty_at = record { ne_null = omega arith; at = refl }

pub memory-IsBuff : IsBuff memory 50 small_buff (1 ∷ [])
unfolding memory
memory-IsBuff = record {
  struct = record { ne_null = omega arith; at = refl };
  stored = record { ne_null = omega arith; at = refl };
  len_in = omega arith;
}

pub buckets_at : Holds memory 20 (buckets two_buckets)
unfolding memory
buckets_at = record { ne_null = omega arith; at = refl }

abbrev pub ascii_length : List ℕ → ℕ
ascii_length [] = 0
ascii_length (b ∷ _) = if ltb b 128 then 1 else 2 ^ 64 - 3

-- A `utf8proc_iterate` that knows ASCII alone.
abbrev pub ascii : Utf8proc
ascii = record { iterate = ascii_length }
