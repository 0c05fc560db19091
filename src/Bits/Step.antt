-- ===== src/Bits/Step.antt =====
-- The lowest binary digit of `&`, `|` and `^`: one equation for each native operation, from the
-- recursion with fuel that it stands for.
use Prim.Native.Nat.{max, differ, digits, bitwise, bit_and, bit_or, bit_xor}
use Prim.Native.Nat.{bit_and-bitwise, bit_or-bitwise, bit_xor-bitwise}
use neonrt.Base.{ℕ, zero, suc, ◌+◌, ◌*◌, ◌/◌, ◌%◌, ◌≤◌, ◌<◌, min, ◌≡◌, refl, arith}

module _ (start : ℕ → ℕ) (merge : ℕ → ℕ → ℕ) where
  -- Any two amounts of fuel that cover the first number agree.
  digits_enough :
      (j k x y : ℕ) → x ≤ j → x ≤ k → digits start merge j x y ≡ digits start merge k x y
  digits_enough zero zero x y hx hy = refl
  digits_enough zero (suc k) zero y hx hy = refl
  digits_enough zero (suc k) (suc x) y hx hy = absurd (omega arith)
  digits_enough (suc j) zero zero y hx hy = refl
  digits_enough (suc j) zero (suc x) y hx hy = absurd (omega arith)
  digits_enough (suc j) (suc k) zero y hx hy = refl
  digits_enough (suc j) (suc k) (suc x) y hx hy =
      rw (digits_enough j k (suc x / 2) (y / 2) (omega arith) (omega arith))

  bitwise-suc :
      (x y : ℕ)
      → bitwise start merge (suc x) y
        ≡ bitwise start merge (suc x / 2) (y / 2) * 2 + merge (suc x % 2) (y % 2)
  bitwise-suc x y =
      omega (arith, digits_enough x (suc x / 2) (suc x / 2) (y / 2) (omega arith) (omega arith))

pub bit_and_step : (x y : ℕ) → bit_and x y ≡ bit_and (x / 2) (y / 2) * 2 + min (x % 2) (y % 2)
bit_and_step zero y = simp bit_and-bitwise (omega arith)
bit_and_step (suc x) y = simp bit_and-bitwise (bitwise-suc (λ _. 0) min x y)

pub bit_or_step : (x y : ℕ) → bit_or x y ≡ bit_or (x / 2) (y / 2) * 2 + max (x % 2) (y % 2)
bit_or_step zero y = simp bit_or-bitwise (omega arith)
bit_or_step (suc x) y = simp bit_or-bitwise (bitwise-suc (λ d. d) max x y)

pub bit_xor_step : (x y : ℕ) → bit_xor x y ≡ bit_xor (x / 2) (y / 2) * 2 + differ (x % 2) (y % 2)
bit_xor_step zero y = simp bit_xor-bitwise (differ_digits y)
  where
    differ_digits : (y : ℕ) → y ≡ y / 2 * 2 + differ 0 (y % 2)
    differ_digits y = omega arith
bit_xor_step (suc x) y = simp bit_xor-bitwise (bitwise-suc (λ d. d) differ x y)

differ_bit : (x y : ℕ) → x < 2 → y < 2 → differ x y < 2
differ_bit zero y hx hy = hy
differ_bit (suc zero) zero hx hy = omega arith
differ_bit (suc zero) (suc zero) hx hy = omega arith
differ_bit (suc zero) (suc (suc y)) hx hy = absurd (omega arith)
differ_bit (suc (suc x)) y hx hy = absurd (omega arith)

-- `^` makes a bit of two bits.
pub bit_xor_step-lt : (x y : ℕ) → bit_xor x y < bit_xor (x / 2) (y / 2) * 2 + 2
bit_xor_step-lt x y =
    omega (arith, bit_xor_step x y, differ_bit (x % 2) (y % 2) (omega arith) (omega arith))
