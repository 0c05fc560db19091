-- ===== src/HashMap/Represent.antt =====
-- The contents of a hash map: the keys with values that each of its buckets stands for.
use neonrt.Base.{
  ℕ, ◌+◌, ◌<◌, ◌≡◌, ◌≢◌, refl, sym, ap, ◌∙◌, false, Option, some, none, List, [], ◌∷◌, ◌++◌, arith,
  ◌==◌, if◌then◌else◌, Option-cases, inl, inr, get_elem?, length,
}
use neonrt.Memory.{Ptr, null, HmapBucket, Object, raw, buckets, Heap}
use neonrt.Memory.Rules.{Holds}
use neonrt.LinkedList.Seg.{Nodes}
use neonrt.HashMap.{Hmap}
use neonrt.HashMap.Lookup.{Reaches}
use neonrt.HashMap.Slot.{Entry, Slot, vacant, single, chain, Owned, Holding}

-- The entries of the bucket at each index.
abbrev pub Contents : Type 0
Contents = ℕ → List Entry

unfoldable pub put : ℕ → List Entry → Contents → Contents
put k es contents i = if i == k then es else contents i

-- The bucket at an index. What is of its list belongs to `k`.
pub record Place (h : Heap) (bs : List HmapBucket) (i : ℕ) (header end : Ptr) (es : List Entry)
    (own : Ptr → ℕ) (k : ℕ) : Type 0 where
  pub bucket : HmapBucket
  pub found : get_elem? bs i ≡ some bucket
  pub slot : Slot h bucket header end es
  pub owned : Holding own k slot

-- An array of `n` buckets that stand for `contents`. The list of the bucket at `i` belongs to
-- `base + i`, so that no two buckets share a part of a list.
pub record Table (h : Heap) (bs : List HmapBucket) (n base : ℕ) (own : Ptr → ℕ)
    (contents : Contents) : Type 0 where
  pub sized : length bs ≡ n
  pub headers : ℕ → Ptr
  pub ends : ℕ → Ptr
  pub places : (i : ℕ) → i < n → Place h bs i (headers i) (ends i) (contents i) own (base + i)

-- A map that takes accesses, whose struct is a block of memory and whose buckets stand for `contents`.
pub record Represents (m : Hmap) (h : Heap) (contents : Contents) : Type 0 where
  pub struct : Holds h m.self (raw 352)
  pub unlocked : m.locked ≡ false
  pub recoverable : m.unrecoverable_error ≡ false
  pub bs : List HmapBucket
  pub array : Holds h m.bucket_array (buckets bs)
  pub capacity_ne : m.capacity ≢ 0
  pub own : Ptr → ℕ
  pub table : Table h bs m.capacity 0 own contents
  pub open table use *

pub Represents-Reaches :
    {m : Hmap} {h : Heap} {contents : Contents} {key : List ℕ} {digest : ℕ}
    (r : Represents m h contents)
    → m.hash_fn key m.seed ≡ some digest
    → Reaches m h key digest r.bs
Represents-Reaches r hashes = record {
  unlocked = r.unlocked;
  recoverable = r.recoverable;
  hashes = hashes;
  array = r.array;
  sized = r.sized;
  capacity_ne = r.capacity_ne;
}

module _ (own : Ptr → ℕ) (k : ℕ) where
  pub Owned-last : (p v : Ptr) (front : Nodes) → Owned own k (front ++ ((p, v) ∷ [])) → own p ≡ k
  Owned-last p v [] owned = owned.0
  Owned-last p v ((q, w) ∷ front) owned = Owned-last p v front owned.3

  -- The header and the last node of a bucket's list belong to it.
  pub header_own :
      {h : Heap} {b : HmapBucket} {self last : Ptr} {es : List Entry} (s : Slot h b self last es)
      → Holding own k s
      → self ≢ null
      → own self ≡ k
  header_own (vacant s l plain empty bare) held ne = ground arith
  header_own (single s l plain key_at is) held ne = ground arith
  header_own (chain complex head end is es) held ne = held.0

  pub end_own :
      {h : Heap} {b : HmapBucket} {self last : Ptr} {es : List Entry} (s : Slot h b self last es)
      → Holding own k s
      → last ≢ null
      → own last ≡ k
  end_own (vacant s l plain empty bare) held ne = ground arith
  end_own (single s l plain key_at is) held ne = ground arith
  end_own (chain {v} {l} {front} complex head end is es) held ne =
      ap own (sym end) ∙ Owned-last l.last v front held.1

abbrev pub claimed : Option Object → ℕ → ℕ → ℕ
claimed none k n = k
claimed (some o) k n = n

-- The addresses that are not in use come to belong to `k`.
abbrev pub claim : Heap → ℕ → (Ptr → ℕ) → Ptr → ℕ
claim h k own a = claimed (h a) k (own a)

pub claim_used : (h : Heap) (k : ℕ) (own : Ptr → ℕ) (a : Ptr) → h a ≢ none → claim h k own a ≡ own a
claim_used h k own a used = elim (Option-cases (h a)) [
  | inl e ↦ absurd (used e)
  | inr (o, e) ↦ rw e refl
]

pub claim_unused : (h : Heap) (k : ℕ) (own : Ptr → ℕ) (a : Ptr) → h a ≡ none → claim h k own a ≡ k
claim_unused h k own a unused = rw unused refl
