-- ===== src/Wire/Align.antt =====
-- `align` at powers of two.
use native.Mathlib.Nat.{
  pow-suc, one-le-pow, mod-eq_of_lt, div-lt_iff_lt-mul, add-zero, add-suc, mul-mod_left,
}
use native.Mathlib.Nat.{lt-div-mul-add, div-mul-le_self}
use neonrt.Base.{ℕ, zero, suc, ◌+◌, ◌-◌, ◌*◌, ◌/◌, ◌%◌, ◌^◌, ◌≤◌, ◌<◌, ◌≡◌, ap, ap₂, ◌∙◌, arith}
use neonrt.Bits.{bit_and_comm, mask-bit_and, shifted-bit_and}
use neonrt.Word.{add_size, ◌bitand◌}
use neonrt.Wire.{align}

pow-add : (j k : ℕ) → 2 ^ j * 2 ^ k ≡ 2 ^ (j + k)
pow-add j zero = omega (arith, ap (λ (t : ℕ). 2 ^ t) (add-zero j))
pow-add j (suc k) = omega (
  arith,
  ap (λ (t : ℕ). 2 ^ j * t) (pow-suc 2 k),
  pow-add j k,
  pow-suc 2 (j + k),
  ap (λ (t : ℕ). 2 ^ t) (add-suc j k),
)

-- The complement of a low mask clears the low bits.
high_mask :
    (j k x : ℕ)
    → 2 ^ j * 2 ^ k ≡ 2 ^ 64
    → x < 2 ^ 64
    → x bitand (2 ^ 64 - 2 ^ k) ≡ x / 2 ^ k * 2 ^ k
high_mask j k x e small =
    bit_and_comm x (2 ^ 64 - 2 ^ k)
    ∙ ap (λ t. t bitand x) shape
    ∙ shifted-bit_and k (2 ^ j - 1) x
    ∙ ap (λ t. t * 2 ^ k)
        (mask-bit_and j (x / 2 ^ k)
          ∙ mod-eq_of_lt ((div-lt_iff_lt-mul (one-le-pow k 2 (omega arith))).1 (rw e small)))
  where
    shape : 2 ^ 64 - 2 ^ k ≡ (2 ^ j - 1) * 2 ^ k
    shape =
        let m = 2 ^ j - 1 in
        let succ : m + 1 ≡ 2 ^ j = omega (arith, one-le-pow j 2) in
        omega (arith, ap (λ (t : ℕ). t * 2 ^ k) succ)

align_of_pow :
    (k value : ℕ)
    → k < 8
    → value + 2 ^ k ≤ 2 ^ 64
    → align value (2 ^ k) ≡ (value + (2 ^ k - 1)) / 2 ^ k * 2 ^ k
unfolding align
align_of_pow k value small fits =
    let some_bit : 1 ≤ 2 ^ k = one-le-pow k 2 (omega arith) in
    let sum : add_size value (2 ^ k + 2 ^ 64 - 1) ≡ value + (2 ^ k - 1) = omega arith in
    let mask : (2 ^ 64 - 2 ^ k) % 2 ^ 64 ≡ 2 ^ 64 - 2 ^ k = omega arith in
    ap₂ ◌bitand◌ sum mask
    ∙ high_mask (64 - k) k (value + (2 ^ k - 1))
        (pow-add (64 - k) k ∙ ap (λ (t : ℕ). 2 ^ t) {y = 64} (omega arith)) (omega arith)

-- At an alignment of `2 ^ k` for `k` below 8, where value and alignment add up to at most `2 ^ 64`, the
-- result is a multiple of the alignment, at least the value, and less than an alignment above it.
pub align-multiple :
    (k value : ℕ)
    → k < 8
    → value + 2 ^ k ≤ 2 ^ 64
    → (align value (2 ^ k) % 2 ^ k ≡ 0)
      × (value ≤ align value (2 ^ k))
      × (align value (2 ^ k) < value + 2 ^ k)
align-multiple k value small fits =
    let some_bit : 1 ≤ 2 ^ k = one-le-pow k 2 (omega arith) in
    let bound = lt-div-mul-add {a = value + (2 ^ k - 1)} some_bit in
    let below = div-mul-le_self (value + (2 ^ k - 1)) (2 ^ k) in
    rw (align_of_pow k value small fits)
      (mul-mod_left ((value + (2 ^ k - 1)) / 2 ^ k) (2 ^ k), omega arith, omega arith)
