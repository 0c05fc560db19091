-- ===== src/Memory/Frame.antt =====
-- What a change of memory leaves alone, and allocators that have room.
use neonrt.Base.{
  ℕ, ◌+◌, ◌≡◌, ◌≢◌, ◌≤◌, ◌<◌, ap, Bool, true, false, Option, none, some, arith, ◌==◌, Bool-cases,
  Option-cases, inl, inr,
}
use neonrt.Memory.{
  Ptr, null, ManagedBuffer, Object, raw, block, buff, node, list, linked, buckets, LlNode,
  LinkedList,
}
use neonrt.Memory.{Heap, write, ok, Allocator, init, size_of}
use neonrt.Memory.Rules.{Holds, Holds-allocate, allocate_unused, init-ok, Holds-write}

-- The bytes of buffers, the entries of a hash map's lists, and blocks that hold no object yet.
abbrev pub is_payload : Object → Bool
is_payload (block bs) = true
is_payload (linked n) = true
is_payload (raw n) = true
is_payload _ = false

-- The struct of a buffer, but for its count of references.
abbrev pub Lent : ManagedBuffer → Option Object → Type 0
Lent b o = (n : ℕ) × (o ≡ some (buff (record b { ref_ct = n })))

-- From `h` to `h'` payloads, buffers but for their counts of references, lists but the one at `self`, inner nodes of lists, and last nodes but the
-- one at `last` stay what they are.
pub record Frame (h h' : Heap) (self last : Ptr) : Type 0 where
  pub payload : (q : Ptr) (o : Object) → h q ≡ some o → is_payload o ≡ true → h' q ≡ some o
  pub struct : (q : Ptr) (b : ManagedBuffer) → h q ≡ some (buff b) → Lent b (h' q)
  pub header : (q : Ptr) (l : LinkedList) → q ≢ self → h q ≡ some (list l) → h' q ≡ some (list l)
  pub inner : (q : Ptr) (n : LlNode) → n.next ≢ null → h q ≡ some (node n) → h' q ≡ some (node n)
  pub end : (q : Ptr) (n : LlNode) → q ≢ last → h q ≡ some (node n) → h' q ≡ some (node n)

-- Whatever is in use stays what it is.
pub record Grows (h h' : Heap) : Type 0 where
  pub kept : (q : Ptr) (o : Object) → h q ≡ some o → h' q ≡ some o

pub Grows-refl : (h : Heap) → Grows h h
Grows-refl h = record { kept = λ q o e. e }

pub Grows-trans : {h h' h'' : Heap} → Grows h h' → Grows h' h'' → Grows h h''
Grows-trans g g' = record { kept = λ q o e. g'.kept q o (g.kept q o e) }

pub Grows-Holds : {h h' : Heap} {p : Ptr} {o : Object} → Grows h h' → Holds h p o → Holds h' p o
Grows-Holds g e = record { ne_null = e.ne_null; at = g.kept _ _ e.at }

-- What is not in use later was not in use before.
pub Grows-unused : {h h' : Heap} (p : Ptr) → Grows h h' → h' p ≡ none → h p ≡ none
Grows-unused {h} p g e = elim (Option-cases (h p)) [
  | inl e' ↦ e'
  | inr (o, e') ↦ ground (arith, g.kept p o e')
]

pub Grows-Frame : {h h' : Heap} (self last : Ptr) → Grows h h' → Frame h h' self last
Grows-Frame self last g = record {
  payload = λ q o e kind. g.kept q o e;
  struct = λ q b e. (b.ref_ct, g.kept q _ e);
  header = λ q l ne e. g.kept q _ e;
  inner = λ q n ne e. g.kept q _ e;
  end = λ q n ne e. g.kept q _ e;
}

pub Frame-trans :
    {h h' h'' : Heap} {self last : Ptr}
    → Frame h h' self last
    → Frame h' h'' self last
    → Frame h h'' self last
Frame-trans f f' = record {
  payload = λ q o e kind. f'.payload q o (f.payload q o e kind) kind;
  struct = λ q b e. let (n, e') = f.struct q b e in let (n', e'') = f'.struct q _ e' in (n', e'');
  header = λ q l ne e. f'.header q l ne (f.header q l ne e);
  inner = λ q n ne e. f'.inner q n ne (f.inner q n ne e);
  end = λ q n ne e. f'.end q n ne (f.end q n ne e);
}

-- A loan of a buffer.
pub Frame-lent :
    {h : Heap} {p : Ptr} {b : ManagedBuffer} (self last : Ptr) (n : ℕ)
    → Holds h p (buff b)
    → Frame h (write h p (some (buff (record b { ref_ct = n })))) self last
unfolding write
Frame-lent {h} {p} {b} self last n e = record {
  payload = λ q o e' kind. ground (arith, e.at);
  struct = λ q b' e'. elim (Bool-cases (q == p)) [
    | inl t ↦
        let same_at : q ≡ p = ground arith in
        let same : b ≡ b' = ground (arith, e.at, e', ap h same_at) in
        rw t (n, ap (λ (z : ManagedBuffer). some (buff (record z { ref_ct = n }))) same)
    | inr f ↦ rw f (b'.ref_ct, e')
  ];
  header = λ q l ne e'. ground (arith, e.at);
  inner = λ q n' ne e'. ground (arith, e.at);
  end = λ q n' ne e'. ground (arith, e.at);
}

-- A list that was not in use before needs no exception.
pub Frame-fresh :
    {h h' : Heap} {p q : Ptr} (self last : Ptr)
    → Frame h h' p q
    → h p ≡ none
    → h q ≡ none
    → Frame h h' self last
Frame-fresh self last f unused unused' = record {
  payload = f.payload;
  struct = f.struct;
  header = λ r l ne e. ground (arith, f.header r l, unused);
  inner = f.inner;
  end = λ r n ne e. ground (arith, f.end r n, unused');
}

-- A write to a bucket array.
pub Frame-buckets :
    {h : Heap} {p : Ptr} (self last : Ptr) (o : Object) {bs : _}
    → Holds h p (buckets bs)
    → Frame h (write h p (some o)) self last
unfolding write
Frame-buckets self last o e = record {
  payload = λ q o' e' kind. ground (arith, e.at);
  struct = λ q b e'. (b.ref_ct, ground (arith, e.at));
  header = λ q l ne e'. ground (arith, e.at);
  inner = λ q n ne e'. ground (arith, e.at);
  end = λ q n ne e'. ground (arith, e.at);
}

-- The release of a bucket array.
pub Frame-release :
    {h : Heap} {p : Ptr} (self last : Ptr) {bs : _}
    → Holds h p (buckets bs)
    → Frame h (write h p none) self last
unfolding write
Frame-release self last e = record {
  payload = λ q o' e' kind. ground (arith, e.at);
  struct = λ q b e'. (b.ref_ct, ground (arith, e.at));
  header = λ q l ne e'. ground (arith, e.at);
  inner = λ q n ne e'. ground (arith, e.at);
  end = λ q n ne e'. ground (arith, e.at);
}

-- No address from `p` on is in use.
abbrev pub Below : Heap → Ptr → Type 0
Below h p = (q : Ptr) → p ≤ q → h q ≡ none

-- An allocator that gives an address below the addresses not in use, or the first of them, as long as
-- that is under a limit.
pub record Roomy (a : Allocator) (limit : Ptr) : Type 0 where
  pub gives : (n : ℕ) (h : Heap) (p : Ptr) → 0 < p → p < limit → Below h p → a.malloc n h ≢ null
  pub stays : (n : ℕ) (h : Heap) (p : Ptr) → 0 < p → p < limit → Below h p → a.malloc n h ≤ p

pub Below-write :
    {h : Heap} {p : Ptr} (q : Ptr) (o : Object)
    → Below h p
    → q ≤ p
    → Below (write h q (some o)) (p + 1)
unfolding write
Below-write q o b le r above = ground (arith, b r)

pub Below-rewrite :
    {h : Heap} {p q : Ptr} {o : Object} (o' : Object)
    → Below h p
    → Holds h q o
    → Below (write h q (some o')) p
unfolding write
Below-rewrite o' b e r above = ground (arith, b r, e.at)

-- An address that a write to another leaves out of use was out of use.
pub unused-rewrite : (h : Heap) (p q : Ptr) (o : Object) → write h p (some o) q ≡ none → h q ≡ none
unfolding write
unused-rewrite h p q o unused = ground arith

pub Grows-write_unused :
    {h : Heap} (q : Ptr) (o : Object) → h q ≡ none → Grows h (write h q (some o))
unfolding write
Grows-write_unused q o unused = record { kept = λ r o' e. ground (arith, unused) }

-- A second write to an address that was not in use.
pub Grows-write_again :
    {h h' : Heap} (q : Ptr) (o : Object) → Grows h h' → h q ≡ none → Grows h (write h' q (some o))
unfolding write
Grows-write_again q o g unused = record { kept = λ r o' e. ground (arith, unused, g.kept r o' e) }

-- Memory in which no address from `top` on is in use, for an allocator that has room up to a limit.
module _ {a : Allocator} {limit top : Ptr} (roomy : Roomy a limit) (pos : 0 < top)
    (under : top < limit) {h : Heap} (below : Below h top) (n : ℕ) where
  pub gets : (a.malloc n h == null) ≡ false
  gets = ground (arith, roomy.gives n h top)

  pub raw-Below : Below (write h (a.malloc n h) (some (raw n))) (top + 1)
  raw-Below = Below-write (a.malloc n h) (raw n) below (roomy.stays n h top pos under below)

  pub raw-Grows : Grows h (write h (a.malloc n h) (some (raw n)))
  raw-Grows = Grows-write_unused (a.malloc n h) (raw n) (allocate_unused a n h gets)

  -- A block allocated, and then filled with an object.
  module _ (o : Object) where
    abbrev pub filled : Heap
    filled = write (write h (a.malloc n h) (some (raw n))) (a.malloc n h) (some o)

    pub filled-Holds : Holds filled (a.malloc n h) o
    filled-Holds = Holds-write (Holds-allocate a n h gets) o

    pub filled-Below : Below filled (top + 1)
    filled-Below = Below-rewrite o raw-Below (Holds-allocate a n h gets)

    pub filled-Grows : Grows h filled
    filled-Grows = Grows-write_again (a.malloc n h) o raw-Grows (allocate_unused a n h gets)

    pub filled-init :
        size_of o ≤ n → init (a.malloc n h) o (write h (a.malloc n h) (some (raw n))) ≡ ok tt filled
    filled-init fits = init-ok (Holds-allocate a n h gets) o fits
