-- ===== src/Buffer/New.antt =====
-- `buff_new` with and without memory.
use neonrt.Base.{ℕ, ◌≡◌, ◌≢◌, ◌≤◌, ◌⊎◌, inl, inr, refl, sym, false, none, some, List, arith}
use neonrt.Base.{◌==◌, length, take, Bool-cases, le→leb, length-take}
use neonrt.Memory.{Ptr, null, ManagedBuffer, raw, block, buff, Heap, write, ok, Allocator}
use neonrt.Memory.Rules.{Holds, free-ok, init-ok, Holds-write, Holds-write_ne}
use neonrt.Memory.Rules.{allocate-null, allocate-ok, Holds-allocate, allocate_unused}
use neonrt.Buffer.{buff_new}

-- What `buff_new` stores in the struct of a new buffer.
abbrev pub unleased : Ptr → ℕ → ManagedBuffer
unleased bytes len = record {
  bytes = bytes;
  len = len;
  ref_ct = 0;
  needs_sync = false;
  lock = false;
  is_utf8 = 0;
}

-- `self` is a new buffer of `bytes` in `h'`, made from `h` at two addresses that were not in use.
pub record Created (h h' : Heap) (self : Ptr) (bytes : List ℕ) (len : ℕ) : Type 0 where
  pub at : Ptr
  pub struct : Holds h' self (buff (unleased at len))
  pub stored : Holds h' at (block bytes)
  pub apart : self ≢ at
  pub unused : (h self ≡ none) × (h at ≡ none)
  pub same : (q : Ptr) → q ≢ self → q ≢ at → h' q ≡ h q

module _ (a : Allocator) (value : List ℕ) (val_len : ℕ) (h : Heap) where
  -- Memory with a block for the struct, and the addresses of the two blocks.
  abbrev pub with_struct : Heap
  with_struct = write h (a.malloc 40 h) (some (raw 40))

  abbrev pub struct_at : Ptr
  struct_at = a.malloc 40 h

  abbrev pub bytes_at : Ptr
  bytes_at = a.malloc val_len with_struct

  -- Memory with the bytes, before the struct is filled.
  abbrev pub with_bytes : Heap
  with_bytes =
      write (write with_struct bytes_at (some (raw val_len))) bytes_at
        (some (block (take val_len value)))

  abbrev pub made : Heap
  made = write with_bytes struct_at (some (buff (unleased bytes_at val_len)))

  module _ (enough : val_len ≤ length value) (got : (struct_at == null) ≡ false)
      (got' : (bytes_at == null) ≡ false) where
    struct-ne-bytes : struct_at ≢ bytes_at
    unfolding write
    struct-ne-bytes = ground (arith, allocate_unused a val_len with_struct got')

    pub with_bytes-Holds : Holds with_bytes struct_at (raw 40)
    with_bytes-Holds =
        Holds-write_ne bytes_at _
          (Holds-write_ne bytes_at _ (Holds-allocate a 40 h got) struct-ne-bytes) struct-ne-bytes

    pub buff_new-made : buff_new a value val_len h ≡ ok struct_at made
    unfolding buff_new
    buff_new-made =
        rw
          (
            allocate-ok a 40 h got,
            got,
            allocate-ok a val_len with_struct got',
            got',
            le→leb val_len (length value) enough,
            init-ok (Holds-allocate a val_len with_struct got') (block (take val_len value))
                (omega (arith, length-take val_len value)),
            init-ok with_bytes-Holds (buff (unleased bytes_at val_len)) (omega arith),
          )
          refl

    pub made-Created : Created h made struct_at (take val_len value) val_len
    unfolding write
    made-Created =
        let unused = allocate_unused a 40 h got in
        let unused' = allocate_unused a val_len with_struct got' in
        let bytes = Holds-allocate a val_len with_struct got' in
        record {
          at = bytes_at;
          struct = Holds-write with_bytes-Holds _;
          stored = Holds-write_ne struct_at _ (Holds-write bytes _) (λ e. struct-ne-bytes (sym e));
          apart = struct-ne-bytes;
          unused = (unused, ground (arith, unused', struct-ne-bytes));
          same = λ q ne ne'. ground arith;
        }

-- Given at least `val_len` bytes, `buff_new` either returns NULL and leaves memory as it was, or returns
-- a buffer that no reference is leased out of, with the first `val_len` bytes in a block of their own,
-- both at addresses that were not in use, and changes nothing else.
pub buff_new_lem :
    (a : Allocator) (value : List ℕ) (val_len : ℕ) (h : Heap)
    → val_len ≤ length value
    → (self : Ptr) × (h' : Heap) × (buff_new a value val_len h ≡ ok self h')
      × (((self ≡ null) × ((q : Ptr) → h' q ≡ h q))
          ⊎ Created h h' self (take val_len value) val_len)
unfolding buff_new write
buff_new_lem a value val_len h enough = elim (Bool-cases (a.malloc 40 h == null)) [
  | inl full ↦ (null, h, rw (allocate-null a 40 h full), inl (refl, λ q. refl))
  | inr got ↦ elim (Bool-cases (bytes_at a value val_len h == null)) [
    | inl full ↦ (
      null,
      write (with_struct a value val_len h) (a.malloc 40 h) none,
      rw (
        allocate-ok a 40 h got,
        got,
        allocate-null a val_len (with_struct a value val_len h) full,
        free-ok (Holds-allocate a 40 h got),
      ),
      inl (refl, λ q. ground (arith, allocate_unused a 40 h got)),
    )
    | inr got' ↦ (
      a.malloc 40 h,
      made a value val_len h,
      buff_new-made a value val_len h enough got got',
      inr (made-Created a value val_len h enough got got'),
    )
  ]
]
