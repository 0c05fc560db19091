-- ===== src/Memory.antt =====
-- The memory that the containers share: C objects at addresses, and commands that read and write them.
-- An address holds one object: a `malloc`ed block that nothing has been written to, the bytes of a
-- buffer, or one of the structs of containers/. Sizes are those of a 64-bit target.
pub mod Rules
pub mod Frame
use neonrt.Base.{ℕ, ◌*◌, ◌≡◌, ◌≢◌, Bool, Option, none, some, List, ltb, ◌==◌, if◌then◌else◌, length}

abbrev pub Ptr : Type 0
Ptr = ℕ

abbrev pub null : Ptr
null = 0

-- `struct managed_buffer`. Its `errno` and `padding0` are never used.
pub record ManagedBuffer : Type 0 where
  pub bytes : Ptr
  pub len : ℕ
  pub ref_ct : ℕ
  pub needs_sync : Bool
  pub lock : Bool
  pub is_utf8 : ℕ

-- `struct singly_linked_list_node`
pub record LlNode : Type 0 where
  pub next : Ptr
  pub payload : Ptr

-- `struct doubly_linked_list_node`
pub record DllNode : Type 0 where
  pub next : Ptr
  pub prev : Ptr
  pub dt_ptr : Ptr

-- `struct linked_list`
pub record LinkedList : Type 0 where
  pub first : Ptr
  pub last : Ptr
  pub len : ℕ

-- `struct hmap_linked_node`
pub record HmapLinkedNode : Type 0 where
  pub key : Ptr
  pub value : Ptr

-- `struct hmap_bucket`
pub record HmapBucket : Type 0 where
  pub key : Ptr
  pub value : Ptr
  pub value_len : ℕ
  pub is_complex : Bool

-- `struct ring_buffer`
pub record RingStruct : Type 0 where
  pub buffer : Ptr
  pub capacity : ℕ
  pub size : ℕ
  pub head : ℕ
  pub tail : ℕ

pub data Object : Type 0 where
  raw : ℕ → Object
  block : List ℕ → Object
  buff : ManagedBuffer → Object
  node : LlNode → Object
  dnode : DllNode → Object
  list : LinkedList → Object
  linked : HmapLinkedNode → Object
  buckets : List HmapBucket → Object
  ring : RingStruct → Object

abbrev pub size_of : Object → ℕ
size_of (raw n) = n
size_of (block bs) = length bs
size_of (buff _) = 40
size_of (node _) = 16
size_of (dnode _) = 24
size_of (list _) = 24
size_of (linked _) = 16
size_of (buckets bs) = length bs * 32
size_of (ring _) = 40

abbrev pub Heap : Type 0
Heap = Ptr → Option Object

unfoldable pub write : Heap → Ptr → Option Object → Heap
write h p c a = if a == p then c else h a

-- `fault` is what C leaves undefined; `out_of_fuel` a loop that the bound on its rounds cuts off.
pub data Run {ℓ} (A : Type ℓ) : Type ℓ where
  fault out_of_fuel : Run A
  ok : (result : A) (after : Heap) → Run A

abbrev pub Cmd : Type 0 → Type 0
Cmd R = Heap → Run R

abbrev pub pure : {R : Type 0} → R → Cmd R
pure result = λ before. ok result before

module _ {R S : Type 0} where
  -- The rest of a program, where the run before it has an end.
  abbrev pub and_then : Run R → (R → Cmd S) → Run S
  and_then out_of_fuel rest = out_of_fuel
  and_then fault rest = fault
  and_then (ok result after) rest = rest result after

  infixl 5 ◌>>=◌ ◌>>◌
  -- One command after another.
  abbrev pub ◌>>=◌ : Cmd R → (R → Cmd S) → Cmd S
  first >>= rest = λ before. and_then (first before) rest

  abbrev pub ◌>>◌ : Cmd R → Cmd S → Cmd S
  first >> second = first >>= λ _. second

-- What `malloc` of the C library promises: an address that is not in use, or NULL.
pub record Allocator : Type 0 where
  pub malloc : ℕ → Heap → Ptr
  pub malloc_fresh : (n : ℕ) (h : Heap) → malloc n h ≢ null → h (malloc n h) ≡ none

-- `malloc(n)`
unfoldable pub allocate : Allocator → ℕ → Cmd Ptr
allocate a n h =
    let p = a.malloc n h in if p == null then ok null h else ok p (write h p (some (raw n)))

-- The object at `p`; a fault at NULL and at an address that holds none.
unfoldable pub load : Ptr → Cmd Object
load p h = if p == null then fault else elim (h p) [ none ↦ fault | some o ↦ ok o h ]

-- Fills a block with an object, which must fit.
unfoldable pub init : Ptr → Object → Cmd (Unit {0})
unfolding load
init p o = do
  old ← load p
  if ltb (size_of old) (size_of o) then (λ _. fault) else (λ h. ok tt (write h p (some o)))

-- `free(p)`, which does nothing at NULL.
unfoldable pub free : Ptr → Cmd (Unit {0})
unfolding load
free p = if p == null then pure tt else do load p; (λ h. ok tt (write h p none))

as_block : Object → Cmd (List ℕ)
as_block (block bs) = pure bs
as_block _ = λ h. fault

as_buff : Object → Cmd ManagedBuffer
as_buff (buff b) = pure b
as_buff _ = λ h. fault

as_node : Object → Cmd LlNode
as_node (node n) = pure n
as_node _ = λ h. fault

as_list : Object → Cmd LinkedList
as_list (list l) = pure l
as_list _ = λ h. fault

as_linked : Object → Cmd HmapLinkedNode
as_linked (linked n) = pure n
as_linked _ = λ h. fault

as_buckets : Object → Cmd (List HmapBucket)
as_buckets (buckets bs) = pure bs
as_buckets _ = λ h. fault

as_ring : Object → Cmd RingStruct
as_ring (ring r) = pure r
as_ring _ = λ h. fault

-- Reads through a pointer of each type.
unfoldable pub load_block : Ptr → Cmd (List ℕ)
unfolding load as_block
load_block p = do o ← load p; as_block o

unfoldable pub load_buff : Ptr → Cmd ManagedBuffer
unfolding load as_buff
load_buff p = do o ← load p; as_buff o

unfoldable pub load_node : Ptr → Cmd LlNode
unfolding load as_node
load_node p = do o ← load p; as_node o

unfoldable pub load_list : Ptr → Cmd LinkedList
unfolding load as_list
load_list p = do o ← load p; as_list o

unfoldable pub load_linked : Ptr → Cmd HmapLinkedNode
unfolding load as_linked
load_linked p = do o ← load p; as_linked o

unfoldable pub load_buckets : Ptr → Cmd (List HmapBucket)
unfolding load as_buckets
load_buckets p = do o ← load p; as_buckets o

unfoldable pub load_ring : Ptr → Cmd RingStruct
unfolding load as_ring
load_ring p = do o ← load p; as_ring o

-- A write through a pointer, after a read through it.
abbrev pub store : Ptr → Object → Cmd (Unit {0})
store p o h = ok tt (write h p (some o))
