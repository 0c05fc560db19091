-- ===== src/RingBuffer/Write.antt =====
-- `rb_write` and the bytes held.
use native.Mathlib.Nat.{mod-add-mod, add-zero}
use mathlib.Core.List.{append-nil, append_assoc}
use neonrt.Base.{ℕ, zero, suc, ◌+◌, ◌-◌, ◌%◌, ◌^◌, ◌≤◌, ◌<◌, ◌≡◌, refl, ap, sym, ◌∙◌, arith}
use neonrt.Base.{some, List, [], ◌∷◌, ◌++◌, length, get_or, set, take, drop}
use neonrt.Base.{length-set, get_elem?-eq-get_or, drop-eq-cons, leb, ltb, if◌then◌else◌, lt→ltb}
use neonrt.Base.{true, false, inl, inr, Bool-cases}
use neonrt.Word.{add_size, sub_size}
use neonrt.RingBuffer.{RingBuffer, write_loop, rb_write}
use neonrt.RingBuffer.Window.{window, contents, IsValid, window-set}

module _ (capacity : ℕ) (src : List ℕ) (small : capacity < 2 ^ 64) where
  -- One round stores a byte and moves the tail on.
  write_loop-suc :
      (left i : ℕ) (buffer : List ℕ) (tail : ℕ)
      → i < length src
      → tail < length buffer
      → tail < capacity
      → write_loop capacity src (suc left) i buffer tail
        ≡ write_loop capacity src left
            (i + 1)
            (set buffer tail (get_or src i 0))
            ((tail + 1) % capacity)
  unfolding write_loop
  write_loop-suc left i buffer tail hi ht hc =
      let wraps : add_size tail 1 ≡ tail + 1 = omega arith in
      rw (get_elem?-eq-get_or src i 0 hi, lt→ltb tail (length buffer) ht, wraps)

  take-drop-suc :
      (left i : ℕ)
      → i < length src
      → take (suc left) (drop i src) ≡ get_or src i 0 ∷ take left (drop (i + 1) src)
  take-drop-suc left i h =
      ap (take (suc left)) (drop-eq-cons src i 0 h)
      ∙ ap (λ k. get_or src i 0 ∷ take left (drop k src)) {x = suc i} (omega arith)

  -- The rest of the loop, at `n` bytes held.
  write_loop_lem :
      (left i n h tail : ℕ) (buffer : List ℕ)
      → n + left ≤ capacity
      → i + left ≤ length src
      → capacity ≤ length buffer
      → h < capacity
      → tail ≡ (h + n) % capacity
      → (buffer' : List ℕ) × (tail' : ℕ) × (write_loop capacity src left i buffer tail
          ≡ some (buffer', tail'))
        × (window buffer' capacity h (n + left)
            ≡ window buffer capacity h n ++ take left (drop i src))
        × (tail' ≡ (h + (n + left)) % capacity)
        × (length buffer' ≡ length buffer)
  write_loop_lem zero i n h tail buffer room more storage hh e =
      (buffer, tail, unfold write_loop in refl, rw (add-zero, append-nil), rw add-zero e, refl)
  write_loop_lem (suc left) i n h tail buffer room more storage hh e =
      let b = get_or src i 0 in
      let buffer₁ = set buffer tail b in
      let next : (tail + 1) % capacity ≡ (h + suc n) % capacity =
        ap (λ t. (t + 1) % capacity) e
        ∙ mod-add-mod (h + n) capacity 1
        ∙ ap (λ t. t % capacity) (omega arith) in
      let rest =
        write_loop_lem left (i + 1) (suc n) h ((tail + 1) % capacity) buffer₁ (omega arith)
          (omega arith) (rw length-set storage) hh next in
      (
        rest.0,
        rest.1,
        write_loop-suc left i buffer tail (omega arith) (omega arith) (omega arith) ∙ rest.2,
        ap (window rest.0 capacity h) {y = suc n + left} (omega arith)
            ∙ rest.3
            ∙ ap (λ t. t ++ take left (drop (i + 1) src))
                (window-set buffer capacity b n h tail storage hh (omega arith) e)
            ∙ append_assoc (window buffer capacity h n) (b ∷ []) (take left (drop (i + 1) src))
            ∙ ap (λ t. window buffer capacity h n ++ t) (sym (take-drop-suc left i (omega arith))),
        rest.4 ∙ ap (λ t. (h + t) % capacity) (omega arith),
        rest.5 ∙ length-set buffer tail b,
      )

-- On a valid ring and a source of at least `len` bytes, `rb_write` says whether `len` bytes fit
-- beside those held; if so it appends the first `len` bytes of the source to the bytes held, and if
-- not it changes nothing. It accesses nothing out of bounds, and the ring stays valid at its capacity.
pub rb_write_lem :
    (r : RingBuffer) (src : List ℕ) (len : ℕ)
    → IsValid r
    → len ≤ length src
    → (r' : RingBuffer) × (rb_write r src len ≡ some (leb len (r.capacity - r.size), r'))
      × (contents r'
          ≡ (if leb len (r.capacity - r.size) then contents r ++ take len src else contents r))
      × IsValid r'
      × (r'.capacity ≡ r.capacity)
unfolding rb_write
rb_write_lem r src len v enough =
    let free : sub_size r.capacity r.size ≡ r.capacity - r.size = omega arith in
    elim (Bool-cases (leb len (r.capacity - r.size))) [
      | inr over ↦
          let test : ltb (r.capacity - r.size) len ≡ true = ground arith in
          (r, rw (free, test, over), rw over, v, refl)
      | inl room ↦
          let test : ltb (r.capacity - r.size) len ≡ false = ground arith in
          let loop =
            write_loop_lem r.capacity src v.bounded len 0 r.size r.head r.tail r.buffer
              (ground arith) (omega arith) v.storage v.head_in v.tail_at in
          let sum : add_size r.size len ≡ r.size + len = ground arith in
          (
            record r { buffer = loop.0; tail = loop.1; size = add_size r.size len },
            rw (free, test, room, loop.2),
            rw (room, sum) loop.3,
            record {
              storage = omega (arith, loop.5);
              bounded = v.bounded;
              head_in = v.head_in;
              size_in = ground arith;
              tail_at = rw sum loop.4;
            },
            refl,
          )
    ]
