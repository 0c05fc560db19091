-- ===== src/Bits.antt =====
-- `&`, `|` and `^` of C on numbers, as arithmetic: masks, disjoint fields, and bounds.
mod Step
use Step.{bit_and_step, bit_or_step, bit_xor_step-lt}
use Prim.Native.Nat.{bit_and, bit_or, bit_xor}
use Prim.Native.Nat.{bit_and-bitwise}
use native.Mathlib.Nat.{pow-suc, one-le-pow, div-one, mul-one, div-div-eq-div-mul}
use neonrt.Base.{ℕ, zero, suc, ◌+◌, ◌-◌, ◌*◌, ◌/◌, ◌%◌, ◌^◌, ◌≤◌, ◌<◌, ◌≡◌, refl, ap, ◌∙◌, arith}

bit_and_comm_below : (n a b : ℕ) → a ≤ n → b ≤ n → bit_and a b ≡ bit_and b a
bit_and_comm_below zero zero zero p q = refl
bit_and_comm_below zero zero (suc b) p q = absurd (omega arith)
bit_and_comm_below zero (suc a) b p q = absurd (omega arith)
bit_and_comm_below (suc n) a b p q = ground (
  arith,
  bit_and_step a b,
  bit_and_step b a,
  bit_and_comm_below n (a / 2) (b / 2) (omega arith) (omega arith),
)

pub bit_and_comm : (a b : ℕ) → bit_and a b ≡ bit_and b a
bit_and_comm a b = bit_and_comm_below (a + b) a b (omega arith) (omega arith)

bit_or-zero_below : (n a : ℕ) → a ≤ n → bit_or a 0 ≡ a
bit_or-zero_below zero zero p = refl
bit_or-zero_below zero (suc a) p = absurd (omega arith)
bit_or-zero_below (suc n) a p =
    omega (arith, bit_or_step a 0, bit_or-zero_below n (a / 2) (omega arith))

-- Doubling the power of two, under a factor.
mul-pow-suc : (q k : ℕ) → q * 2 ^ suc k ≡ 2 * (q * 2 ^ k)
mul-pow-suc q k = omega (arith, ap (λ (t : ℕ). q * t) (pow-suc 2 k))

-- A mask of `k` low bits keeps the low field.
mask-fields : (k q r : ℕ) → r < 2 ^ k → bit_and (2 ^ k - 1) (q * 2 ^ k + r) ≡ r
mask-fields zero q r fits =
    let none_set : bit_and (2 ^ 0 - 1) (q * 2 ^ 0 + r) ≡ 0 = bit_and-bitwise 0 (q * 2 ^ 0 + r) in
    omega arith
mask-fields (suc k) q r fits = ground (
  arith,
  pow-suc 2 k,
  one-le-pow k 2,
  mul-pow-suc q k,
  bit_and_step (2 ^ suc k - 1) (q * 2 ^ suc k + r),
  mask-fields k q (r / 2) (omega (arith, pow-suc 2 k)),
)

-- A mask of `k` low bits is the remainder by `2 ^ k`.
pub mask-bit_and : (k a : ℕ) → bit_and (2 ^ k - 1) a ≡ a % 2 ^ k
mask-bit_and k a = ground (arith, one-le-pow k 2, mask-fields k (a / 2 ^ k) (a % 2 ^ k))

half-div-pow : (a k : ℕ) → a / 2 / 2 ^ k ≡ a / 2 ^ suc k
half-div-pow a k = div-div-eq-div-mul a 2 (2 ^ k) ∙ ap (λ t. a / t) (omega (arith, pow-suc 2 k))

-- A mask whose low `k` bits are clear acts on the bits from `k` on.
pub shifted-bit_and : (k m a : ℕ) → bit_and (m * 2 ^ k) a ≡ bit_and m (a / 2 ^ k) * 2 ^ k
shifted-bit_and zero m a = simp (div-one, mul-one)
shifted-bit_and (suc k) m a = ground (
  arith,
  mul-pow-suc m k,
  mul-pow-suc (bit_and m (a / 2 ^ suc k)) k,
  bit_and_step (m * 2 ^ suc k) a,
  shifted-bit_and k m (a / 2),
  pow-suc 2 k,
  ap (bit_and m) (half-div-pow a k),
)

-- `a | r` is a sum when `a` is a multiple of `2 ^ k` and `r` fits `k` bits.
pub bit_or_fields : (k q r : ℕ) → r < 2 ^ k → bit_or (q * 2 ^ k) r ≡ q * 2 ^ k + r
bit_or_fields zero q r fits = ground (arith, bit_or-zero_below (q * 1) (q * 1))
bit_or_fields (suc k) q r fits = ground (
  arith,
  bit_or_step (q * 2 ^ suc k) r,
  mul-pow-suc q k,
  pow-suc 2 k,
  bit_or_fields k q (r / 2) (omega (arith, pow-suc 2 k)),
)

-- `^` of two numbers of `k` bits has `k` bits.
pub bit_xor-lt : (k a b : ℕ) → a < 2 ^ k → b < 2 ^ k → bit_xor a b < 2 ^ k
bit_xor-lt zero zero zero p q = omega arith
bit_xor-lt zero zero (suc b) p q = absurd (omega arith)
bit_xor-lt zero (suc a) b p q = absurd (omega arith)
bit_xor-lt (suc k) a b p q = ground (
  arith,
  bit_xor_step-lt a b,
  pow-suc 2 k,
  bit_xor-lt k (a / 2) (b / 2) (omega (arith, pow-suc 2 k)) (omega (arith, pow-suc 2 k)),
)
