-- ===== src/RingBuffer/Store.antt =====
-- `rb_new` and `rb_free`, which allocate and release a ring and its array.
use neonrt.Base.{ℕ, ◌≡◌, ◌≢◌, ◌⊎◌, inl, inr, refl, sym, none, some, arith, ◌==◌}
use neonrt.Base.{Bool-cases, if◌then◌else◌}
use neonrt.Memory.{Ptr, null, RingStruct, ring, raw, Heap, write, ok, Cmd, pure, ◌>>=◌, ◌>>◌}
use neonrt.Memory.{Allocator, allocate, init, free, load_ring}
use neonrt.Memory.Rules.{Holds, load_ring-ok, free-ok, init-ok, Holds-write, Holds-write_ne}
use neonrt.Memory.Rules.{allocate-null, allocate-ok, Holds-allocate, allocate_unused}

unfoldable pub rb_new : Allocator → ℕ → Cmd Ptr
rb_new a capacity = do
  self ← allocate a 40
  if self == null then pure null else do
    buffer ← allocate a capacity
    if buffer == null then free self >> pure null else do
      init self
          (ring (record { buffer = buffer; capacity = capacity; size = 0; head = 0; tail = 0 }))
      pure self

unfoldable pub rb_free : Ptr → Cmd (Unit {0})
rb_free self = do r ← load_ring self; free r.buffer; free self

-- An empty ring of the capacity given, with its array.
abbrev pub empty_ring : Ptr → ℕ → RingStruct
empty_ring at capacity = record { buffer = at; capacity = capacity; size = 0; head = 0; tail = 0 }

-- `self` is an empty ring in `h'`, made from `h` at addresses that were not in use, and `rb_free` gives
-- back what it takes.
pub record MadeRing (h h' : Heap) (self : Ptr) (capacity : ℕ) : Type 0 where
  pub at : Ptr
  pub struct : Holds h' self (ring (empty_ring at capacity))
  pub stored : Holds h' at (raw capacity)
  pub apart : self ≢ at
  pub unused : (h self ≡ none) × (h at ≡ none)
  pub released : Heap
  pub frees : rb_free self h' ≡ ok tt released
  pub same : (q : Ptr) → released q ≡ h q

rb_free-ok :
    {h : Heap} {self at : Ptr} {capacity : ℕ}
    → Holds h self (ring (empty_ring at capacity))
    → Holds h at (raw capacity)
    → self ≢ at
    → rb_free self h ≡ ok tt (write (write h at none) self none)
unfolding rb_free
rb_free-ok {at} struct stored apart =
    rw (load_ring-ok struct, free-ok stored, free-ok (Holds-write_ne at none struct apart)) refl

-- `rb_new` either returns NULL and leaves memory as it was, or returns an empty ring of the capacity
-- given over an array of as many bytes, both at addresses that were not in use; `rb_free` of the ring
-- then succeeds, and leaves all of memory as it was before.
pub rb_new_lem :
    (a : Allocator) (capacity : ℕ) (h : Heap)
    → (self : Ptr) × (h' : Heap) × (rb_new a capacity h ≡ ok self h')
      × (((self ≡ null) × ((q : Ptr) → h' q ≡ h q)) ⊎ MadeRing h h' self capacity)
unfolding rb_new write
rb_new_lem a capacity h =
    let self = a.malloc 40 h in
    let h₁ = write h self (some (raw 40)) in
    let at = a.malloc capacity h₁ in
    elim (Bool-cases (self == null)) [
      | inl full ↦ (null, h, rw (allocate-null a 40 h full), inl (refl, λ q. refl))
      | inr got ↦
          let struct = Holds-allocate a 40 h got in
          let unused = allocate_unused a 40 h got in
          elim (Bool-cases (at == null)) [
            | inl full ↦ (
              null,
              write h₁ self none,
              rw (allocate-ok a 40 h got, got, allocate-null a capacity h₁ full, free-ok struct),
              inl (refl, λ q. ground (arith, unused)),
            )
            | inr got' ↦
                let bytes = Holds-allocate a capacity h₁ got' in
                let unused' = allocate_unused a capacity h₁ got' in
                let apart : self ≢ at = ground (arith, unused') in
                let h₂ = write h₁ at (some (raw capacity)) in
                let struct' : Holds h₂ self (raw 40) = Holds-write_ne at _ struct apart in
                let h₃ = write h₂ self (some (ring (empty_ring at capacity))) in
                let made = Holds-write struct' (ring (empty_ring at capacity)) in
                let stored =
                  Holds-write_ne self (some (ring (empty_ring at capacity))) bytes
                    (λ e. apart (sym e)) in
                (
                  self,
                  h₃,
                  rw
                      (
                        allocate-ok a 40 h got,
                        got,
                        allocate-ok a capacity h₁ got',
                        got',
                        init-ok struct' (ring (empty_ring at capacity)) (omega arith),
                      )
                      refl,
                  inr (record {
                    at = at;
                    struct = made;
                    stored = stored;
                    apart = apart;
                    unused = (unused, ground (arith, unused'));
                    released = write (write h₃ at none) self none;
                    frees = rb_free-ok made stored apart;
                    same = λ q. ground (arith, unused, unused');
                  }),
                )
          ]
    ]
