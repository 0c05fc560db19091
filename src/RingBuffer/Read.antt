-- ===== src/RingBuffer/Read.antt =====
-- `rb_read`: what it copies, what it reports, and what it leaves.
use native.Mathlib.Nat.{zero-add, add-mod_right, mod-eq_of_lt, add-zero}
use neonrt.Base.{ℕ, zero, suc, ◌+◌, ◌-◌, ◌%◌, ◌^◌, ◌≤◌, ◌<◌, ◌≡◌, ap, ap₂, sym, ◌∙◌, arith, min}
use neonrt.Base.{Option, some, List, [], ◌∷◌, length, get_or, set, true, false}
use neonrt.Base.{
  inl, inr, Bool-cases, length-set, get_elem?-eq-get_or, ltb, ◌==◌, if◌then◌else◌, lt→ltb,
}
use neonrt.Word.{add_size, sub_size}
use neonrt.RingBuffer.{RingBuffer, read_loop, rb_read}
use neonrt.RingBuffer.Window.{window, IsValid, step-ne, step_add}

-- The bytes `bs` stored from index `i` on.
abbrev pub splice : List ℕ → ℕ → List ℕ → List ℕ
splice dst i [] = dst
splice dst i (b ∷ bs) = splice (set dst i b) (i + 1) bs

-- What the loop counts in `left` rounds with `n` bytes to the tail.
abbrev pub counted : ℕ → ℕ → ℕ
counted left n = if ltb left n then left else n - 1

module _ (r : RingBuffer) (small : r.capacity < 2 ^ 64)
    (storage : r.capacity ≤ length r.buffer) where
  -- One round stores a byte and moves the head on; it is the last where the head meets the tail.
  read_loop-suc :
      (left i : ℕ) (dst : List ℕ) (h read : ℕ)
      → i < length dst
      → h < r.capacity
      → read_loop r (suc left) i dst h read ≡ (
          if (h + 1) % r.capacity == r.tail
          then some (set dst i (get_or r.buffer h 0), (h + 1) % r.capacity, read)
          else read_loop r left
              (i + 1)
              (set dst i (get_or r.buffer h 0))
              ((h + 1) % r.capacity)
              (read + 1))
  unfolding read_loop
  read_loop-suc left i dst h read hi hh =
      let wraps : add_size h 1 ≡ h + 1 = omega arith in
      rw (get_elem?-eq-get_or r.buffer h 0 (omega arith), lt→ltb i (length dst) hi, wraps)

  -- The loop's outcome where it has copied `m` bytes from index `h` on and counted `c`.
  abbrev copied : List ℕ → ℕ → ℕ → ℕ → ℕ → Option (List ℕ × ℕ × ℕ)
  copied dst i h m c = some (splice dst i (window r.buffer r.capacity h m), (h + m) % r.capacity, c)

  copied_eq :
      (dst : List ℕ) (i h m m' c c' : ℕ)
      → m ≡ m'
      → c ≡ c'
      → copied dst i h m c ≡ copied dst i h m' c'
  copied_eq dst i h m m' c c' e f = ap₂ (copied dst i h) e f

  -- With `n` bytes from the head to the tail, `left` rounds copy the lesser of the two, and count one
  -- byte less where they reach the tail.
  read_loop_lem :
      (n left i h read : ℕ) (dst : List ℕ)
      → 0 < n
      → n ≤ r.capacity
      → i + left ≤ length dst
      → h < r.capacity
      → r.tail ≡ (h + n) % r.capacity
      → read_loop r left i dst h read ≡ copied dst i h (min left n) (read + counted left n)
  read_loop_lem zero left i h read dst pos le more hh e = absurd (omega arith)
  read_loop_lem (suc n) zero i h read dst pos le more hh e =
      unfold read_loop in
      (ap (λ t. some (dst, t, read)) (sym (ap (λ t. t % r.capacity) (add-zero h) ∙ mod-eq_of_lt hh))
        ∙ copied_eq dst i h 0 (min 0 (suc n)) read (read + counted 0 (suc n)) (omega arith)
            (ground arith))
  read_loop_lem (suc zero) (suc left) i h read dst pos le more hh e =
      let met : ((h + 1) % r.capacity == r.tail) ≡ true = ground arith in
      read_loop-suc left i dst h read (omega arith) hh
      ∙ rw met (
          copied_eq dst i h 1 (min (suc left) 1) read (read + counted (suc left) 1) (omega arith)
            (ground arith))
  read_loop_lem (suc (suc n)) (suc left) i h read dst pos le more hh e =
      let h' = (h + 1) % r.capacity in
      let e' : r.tail ≡ (h' + suc n) % r.capacity = e ∙ sym (step_add h (suc n) r.capacity) in
      let apart = step-ne {capacity = r.capacity} {h = h'} {k = n} (omega arith) (omega arith) in
      let open_ : (h' == r.tail) ≡ false = ground (arith, apart) in
      let ih =
        read_loop_lem (suc n) left (i + 1) h' (read + 1) (set dst i (get_or r.buffer h 0))
          (omega arith) (omega arith) (rw length-set (omega arith)) (omega arith) e' in
      read_loop-suc left i dst h read (omega arith) hh
      ∙ rw open_ ih
      ∙ ap
          (λ t. some (
            splice dst i (window r.buffer r.capacity h (suc (min left (suc n)))),
            t,
            read + 1 + counted left (suc n),
          ))
          (step_add h (min left (suc n)) r.capacity)
      ∙ copied_eq dst i h (suc (min left (suc n))) (min (suc left) (suc (suc n)))
          (read + 1 + counted left (suc n)) (read + counted (suc left) (suc (suc n))) (omega arith)
          (ground arith)

-- The bytes between the head and the tail, as the loop meets them: an empty ring looks like a full one.
abbrev pub pending : RingBuffer → ℕ
pending r = if r.size == 0 then r.capacity else r.size

tail-pending : (r : RingBuffer) → IsValid r → r.tail ≡ (r.head + pending r) % r.capacity
tail-pending r v = elim (Bool-cases (r.size == 0)) [
  | inl empty ↦
      let none_held : r.size ≡ 0 = ground arith in
      rw empty (
        v.tail_at
        ∙ ap (λ t. t % r.capacity) {y = r.head} (omega arith)
        ∙ sym (add-mod_right r.head r.capacity))
  | inr some_held ↦ rw some_held v.tail_at
]

-- On a valid ring and a destination of at least `len` bytes, `rb_read` accesses nothing out of bounds.
-- It copies the bytes from the head on, up to `len` of them and up to the tail, which on an empty ring
-- is a whole capacity away; it counts them, less one where it stops at the tail; and it takes `len`
-- from the size, modulo `2 ^ 64`.
pub rb_read_lem :
    (r : RingBuffer) (dst : List ℕ) (len : ℕ)
    → IsValid r
    → len ≤ length dst
    → rb_read r dst len
      ≡ some (
        counted len (pending r),
        splice dst 0 (window r.buffer r.capacity r.head (min len (pending r))),
        record r { head = (r.head + min len (pending r)) % r.capacity; size = sub_size r.size len },
      )
unfolding rb_read
rb_read_lem r dst len v enough =
    let loop =
      read_loop_lem r v.bounded v.storage (pending r) len 0 r.head 0 dst (ground arith)
        (ground arith) (omega arith) v.head_in (tail-pending r v) in
    rw (loop, zero-add)
