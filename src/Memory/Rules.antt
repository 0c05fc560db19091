-- ===== src/Memory/Rules.antt =====
-- What a command does at an address that holds an object.
use neonrt.Base.{
  ℕ, ◌≡◌, ◌≢◌, ◌≤◌, ◌<◌, refl, true, false, Option, none, some, List, arith, ◌==◌, ltb,
}
use neonrt.Memory.{Ptr, null, Object, raw, block, buff, node, list, linked, buckets, ring, size_of}
use neonrt.Memory.{ManagedBuffer, LlNode, LinkedList, HmapLinkedNode, HmapBucket, RingStruct}
use neonrt.Memory.{Heap, write, ok, fault, load, init, free, Allocator, allocate}
use neonrt.Memory.{
  load_block, load_buff, load_node, load_list, load_linked, load_buckets, load_ring,
}

-- `p` is no null pointer and holds `o`.
pub record Holds (h : Heap) (p : Ptr) (o : Object) : Type 0 where
  pub ne_null : p ≢ null
  pub at : h p ≡ some o

module _ {h : Heap} {p : Ptr} {o : Object} (e : Holds h p o) where
  pub not_null : (p == null) ≡ false
  not_null = ground arith

  pub load-ok : load p h ≡ ok o h
  unfolding load
  load-ok = rw (not_null, e.at)

  pub free-ok : free p h ≡ ok tt (write h p none)
  unfolding free
  free-ok = rw (not_null, e.at, not_null)

  pub init-ok : (o' : Object) → size_of o' ≤ size_of o → init p o' h ≡ ok tt (write h p (some o'))
  unfolding init
  init-ok o' fits =
      let room : ltb (size_of o) (size_of o') ≡ false = ground arith in rw (not_null, e.at, room)

  pub init-fault : (o' : Object) → size_of o < size_of o' → init p o' h ≡ fault
  unfolding init
  init-fault o' small =
      let over : ltb (size_of o) (size_of o') ≡ true = ground arith in
      rw (not_null, e.at, over) refl

  pub Holds-write : (o' : Object) → Holds (write h p (some o')) p o'
  unfolding write
  Holds-write o' = ground arith

module _ {h : Heap} {p : Ptr} where
  pub load_block-ok : {bs : List ℕ} → Holds h p (block bs) → load_block p h ≡ ok bs h
  unfolding load_block
  load_block-ok e = rw (not_null e, e.at)

  pub load_buff-ok : {b : ManagedBuffer} → Holds h p (buff b) → load_buff p h ≡ ok b h
  unfolding load_buff
  load_buff-ok e = rw (not_null e, e.at)

  pub load_node-ok : {n : LlNode} → Holds h p (node n) → load_node p h ≡ ok n h
  unfolding load_node
  load_node-ok e = rw (not_null e, e.at)

  pub load_list-ok : {l : LinkedList} → Holds h p (list l) → load_list p h ≡ ok l h
  unfolding load_list
  load_list-ok e = rw (not_null e, e.at)

  pub load_linked-ok : {n : HmapLinkedNode} → Holds h p (linked n) → load_linked p h ≡ ok n h
  unfolding load_linked
  load_linked-ok e = rw (not_null e, e.at)

  pub load_ring-ok : {r : RingStruct} → Holds h p (ring r) → load_ring p h ≡ ok r h
  unfolding load_ring
  load_ring-ok e = rw (not_null e, e.at)

  pub load_buckets-ok : {bs : List HmapBucket} → Holds h p (buckets bs) → load_buckets p h ≡ ok bs h
  unfolding load_buckets
  load_buckets-ok e = rw (not_null e, e.at)

-- Reading where there is no object is a fault.
pub load_node-none : (h : Heap) (p : Ptr) → load_node p (write h p none) ≡ fault
unfolding load_node write
load_node-none h p = ground arith

pub load_linked-none : (h : Heap) (p : Ptr) → load_linked p (write h p none) ≡ fault
unfolding load_linked write
load_linked-none h p = ground arith

pub write_same : (h : Heap) (p : Ptr) (c : Option Object) → write h p c p ≡ c
unfolding write
write_same h p c = ground arith

-- A release leaves what is not in use out of use.
pub write-none : (h : Heap) (p a : Ptr) → h a ≡ none → write h p none a ≡ none
unfolding write
write-none h p a e = ground arith

-- An object elsewhere is left alone by a write.
pub write_ne : (h : Heap) (p : Ptr) (c : Option Object) (a : Ptr) → a ≢ p → write h p c a ≡ h a
unfolding write
write_ne h p c a ne = ground arith

pub Holds-write_ne :
    {h : Heap} {p : Ptr} {o : Object} (q : Ptr) (c : Option Object)
    → Holds h p o
    → p ≢ q
    → Holds (write h q c) p o
unfolding write
Holds-write_ne q c e ne = ground arith

module _ (a : Allocator) (n : ℕ) (h : Heap) where
  pub allocate-null : (a.malloc n h == null) ≡ true → allocate a n h ≡ ok null h
  unfolding allocate
  allocate-null e = rw e

  module _ (got : (a.malloc n h == null) ≡ false) where
    pub allocate-ok : allocate a n h ≡ ok (a.malloc n h) (write h (a.malloc n h) (some (raw n)))
    unfolding allocate
    allocate-ok = rw got

    pub Holds-allocate : Holds (write h (a.malloc n h) (some (raw n))) (a.malloc n h) (raw n)
    unfolding write
    Holds-allocate = ground arith

    pub allocate_unused : h (a.malloc n h) ≡ none
    allocate_unused = a.malloc_fresh n h (ground arith)
