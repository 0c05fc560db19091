-- ===== src/Buffer/Lease.antt =====
-- References leased out of a buffer and given back.
use neonrt.Base.{
  ℕ, zero, suc, ◌+◌, ◌-◌, ◌^◌, ◌≡◌, ◌≢◌, ◌≤◌, ◌<◌, refl, subst, true, false, not, ◌&&◌,
}
use neonrt.Base.{some, none, List, arith, ◌==◌, Bool-cases, inl, inr, if◌then◌else◌}
use neonrt.Word.{add_size, sub_size}
use neonrt.Memory.{Ptr, null, ManagedBuffer, buff, Heap, write, ok, Cmd, pure, ◌>>◌}
use neonrt.Memory.Rules.{Holds, load_buff-ok, Holds-write, Holds-write_ne, free-ok}
use neonrt.Buffer.{buff_borrow, buff_borrow_writable, buff_return, buff_return_n, buff_free}
use neonrt.Buffer.Rules.{IsBuff, apart, buff_borrow-ok, buff_borrow-locked, buff_return-ok}
use neonrt.Buffer.Rules.{buff_borrow_writable-ok, buff_borrow_writable-refused}

-- The command `n` times.
unfoldable pub times : ℕ → Cmd (Unit {0}) → Cmd (Unit {0})
times zero m = pure tt
times (suc n) m = m >> times n m

-- `h'` is `h` but for the struct at `self`, which is `b`.
pub record Changed (h h' : Heap) (self : Ptr) (b : ManagedBuffer) : Type 0 where
  pub struct : Holds h' self (buff b)
  pub same : (q : Ptr) → q ≢ self → h' q ≡ h q

abbrev pub with_refs : ManagedBuffer → ℕ → ManagedBuffer
with_refs b n = record b { ref_ct = n }

-- The struct after a first write to it and further changes.
Changed-write :
    {h h' : Heap} {self : Ptr} {b : ManagedBuffer} (b₁ : ManagedBuffer)
    → Changed (write h self (some (buff b₁))) h' self b
    → Changed h h' self b
unfolding write
Changed-write {self} b₁ c = record { struct = c.struct; same = λ q ne. ground (arith, c.same q ne) }

Changed-refs :
    {h h' : Heap} {self : Ptr} (b : ManagedBuffer) {m n : ℕ}
    → m ≡ n
    → Changed h h' self (with_refs b m)
    → Changed h h' self (with_refs b n)
Changed-refs {h} {h'} {self} b e c = subst (λ k. Changed h h' self (with_refs b k)) e c

borrow : Ptr → Cmd (Unit {0})
borrow self = do buff_borrow self; pure tt

borrow-times :
    (n : ℕ) {h : Heap} {self : Ptr} {b : ManagedBuffer}
    → Holds h self (buff b)
    → b.lock ≡ false
    → b.ref_ct + n < 2 ^ 64
    → (h' : Heap) × (times n (borrow self) h ≡ ok tt h')
      × Changed h h' self (with_refs b (b.ref_ct + n))
unfolding times borrow
borrow-times zero {h} {b} e free room =
    (h, refl, Changed-refs b (omega arith) (record { struct = e; same = λ q ne. refl }))
borrow-times (suc n) {h} {self} {b} e free room =
    let b₁ = with_refs b (add_size b.ref_ct 1) in
    let rest = borrow-times n {b = b₁} (Holds-write e (buff b₁)) free (omega arith) in
    (
      rest.0,
      rw (buff_borrow-ok e free) rest.1,
      Changed-refs b (omega arith) (Changed-write b₁ rest.2),
    )

return_times :
    (n : ℕ) {h : Heap} {self : Ptr} {b : ManagedBuffer}
    → Holds h self (buff b)
    → n ≤ b.ref_ct
    → b.ref_ct < 2 ^ 64
    → (h' : Heap) × (times n (buff_return self) h ≡ ok tt h')
      × Changed h h' self (with_refs b (b.ref_ct - n))
unfolding times
return_times zero {h} {b} e held small =
    (h, refl, Changed-refs b (omega arith) (record { struct = e; same = λ q ne. refl }))
return_times (suc n) {h} {self} {b} e held small =
    let b₁ = with_refs b (sub_size b.ref_ct 1) in
    let rest = return_times n {b = b₁} (Holds-write e (buff b₁)) (omega arith) (omega arith) in
    (rest.0, rw (buff_return-ok e) rest.1, Changed-refs b (omega arith) (Changed-write b₁ rest.2))

-- On an unlocked buffer whose count of references does not reach `2 ^ 64`, `n` borrows followed by `n`
-- returns succeed and leave all of memory as it was; in between the count is higher by `n` and nothing
-- else has changed.
pub borrow-return :
    (n : ℕ) {h : Heap} {self : Ptr} {b : ManagedBuffer}
    → Holds h self (buff b)
    → b.lock ≡ false
    → b.ref_ct + n < 2 ^ 64
    → (h₁ h₂ : Heap) × (times n (do buff_borrow self; pure tt) h ≡ ok tt h₁)
      × Changed h h₁ self (with_refs b (b.ref_ct + n))
      × (times n (buff_return self) h₁ ≡ ok tt h₂)
      × ((q : Ptr) → h₂ q ≡ h q)
unfolding borrow
borrow-return n {h} {self} {b} e free room =
    let out = borrow-times n e free room in
    let back = return_times n out.2.struct (omega arith) (omega arith) in
    let restored = Changed-refs b {n = b.ref_ct} (omega arith) back.2 in
    (
      out.0,
      back.0,
      out.1,
      out.2,
      back.1,
      λ q. elim (Bool-cases (q == self)) [
        | inl here ↦ ground (arith, e.at, restored.struct.at)
        | inr other ↦ ground (arith, out.2.same q, back.2.same q)
      ],
    )

return_locked :
    (n : ℕ) {h : Heap} {self : Ptr} {b : ManagedBuffer}
    → Holds h self (buff b)
    → b.lock ≡ true
    → (h' : Heap) × (b' : ManagedBuffer) × (times n (buff_return self) h ≡ ok tt h')
      × Holds h' self (buff b')
      × (b'.lock ≡ true)
unfolding times
return_locked zero {h} {b} e held = (h, b, refl, e, held)
return_locked (suc n) {self} {b} e held =
    let b₁ = with_refs b (sub_size b.ref_ct 1) in
    let rest = return_locked n {b = b₁} (Holds-write e (buff b₁)) held in
    (rest.0, rest.1, rw (buff_return-ok e) rest.2, rest.3, rest.4)

-- Once `buff_borrow_writable` has leased a buffer out, any number of calls of `buff_return` leave it
-- locked: both kinds of borrow return NULL ever after.
pub writable_lease_is_final :
    (n : ℕ) {h : Heap} {self : Ptr} {b : ManagedBuffer}
    → Holds h self (buff b)
    → b.lock ≡ false
    → b.ref_ct ≡ 0
    → (h₁ h₂ : Heap) × (buff_borrow_writable self h ≡ ok b.bytes h₁)
      × (times n (buff_return self) h₁ ≡ ok tt h₂)
      × (buff_borrow self h₂ ≡ ok null h₂)
      × (buff_borrow_writable self h₂ ≡ ok null h₂)
writable_lease_is_final n {h} {self} {b} e free idle =
    let b₁ = record b { lock = true; needs_sync = true } in
    let back = return_locked n (Holds-write e (buff b₁)) refl in
    (
      write h self (some (buff b₁)),
      back.0,
      buff_borrow_writable-ok e (ground arith),
      back.2,
      buff_borrow-locked back.3 back.4,
      buff_borrow_writable-refused back.3 (ground (arith, back.4)),
    )

-- `buff_return_n` refuses, and changes nothing, exactly when the number given back is the whole count;
-- otherwise it takes the number from the count, modulo `2 ^ 64`.
pub buff_return_n_lem :
    {h : Heap} {self : Ptr} {b : ManagedBuffer} (n : ℕ)
    → Holds h self (buff b)
    → n < 2 ^ 64
    → b.ref_ct < 2 ^ 64
    → buff_return_n self n h ≡ (
        if n == b.ref_ct
        then ok false h
        else ok true (write h self (some (buff (with_refs b (sub_size b.ref_ct n))))))
unfolding buff_return_n
buff_return_n_lem {h} {self} {b} n e small held = elim (Bool-cases (n == b.ref_ct)) [
  | inl all ↦
      let gone : (sub_size b.ref_ct n == 0) ≡ true = ground arith in rw (load_buff-ok e, gone, all)
  | inr some_left ↦
      let left : (sub_size b.ref_ct n == 0) ≡ false = ground arith in
      rw (load_buff-ok e, left, some_left)
]

-- `buff_free` of an unlocked buffer that no reference is leased out of releases the struct and its
-- bytes, changes nothing else, and returns 0. Of any other it takes one from the count of references,
-- modulo `2 ^ 64`, changes nothing else, and returns the new count.
pub buff_free_lem :
    {h : Heap} {self : Ptr} {b : ManagedBuffer} {bs : List ℕ}
    → IsBuff h self b bs
    → let idle = not b.lock && b.ref_ct == 0 in
      (h' : Heap) × (buff_free self h ≡ ok (if idle then 0 else sub_size b.ref_ct 1) h')
      × ((q : Ptr)
          → h' q ≡ (
              if idle
              then (if q == self then none else if q == b.bytes then none else h q)
              else (if q == self then some (buff (with_refs b (sub_size b.ref_ct 1))) else h q)))
unfolding buff_free write
buff_free_lem {h} {self} {b} is = elim (Bool-cases (not b.lock && b.ref_ct == 0)) [
  | inl idle ↦
      let held = Holds-write_ne b.bytes none is.struct (apart is) in
      (
        write (write h b.bytes none) self none,
        rw (load_buff-ok is.struct, idle, free-ok is.stored, free-ok held),
        λ q. rw idle refl,
      )
  | inr leased ↦
      let b₁ = with_refs b (sub_size b.ref_ct 1) in
      (
        write h self (some (buff b₁)),
        rw (
          load_buff-ok is.struct,
          leased,
          buff_return-ok is.struct,
          load_buff-ok (Holds-write is.struct (buff b₁)),
        ),
        λ q. rw leased refl,
      )
]
