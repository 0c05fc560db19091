-- ===== src/Word.antt =====
-- Unsigned C integers as numbers: the casts, the shifts and the bitwise operators.
use Prim.Native.Nat.{bit_and, bit_or, bit_xor}
use neonrt.Base.{ℕ, ◌+◌, ◌-◌, ◌*◌, ◌/◌, ◌%◌, ◌^◌}

abbrev pub u8 : ℕ → ℕ
u8 n = n % 2 ^ 8

abbrev pub u16 : ℕ → ℕ
u16 n = n % 2 ^ 16

abbrev pub u32 : ℕ → ℕ
u32 n = n % 2 ^ 32

abbrev pub u64 : ℕ → ℕ
u64 n = n % 2 ^ 64

-- `size_t` sums, products and differences wrap at 64 bits.
abbrev pub add_size : ℕ → ℕ → ℕ
add_size a b = (a + b) % 2 ^ 64

abbrev pub mul_size : ℕ → ℕ → ℕ
mul_size a b = (a * b) % 2 ^ 64

abbrev pub sub_size : ℕ → ℕ → ℕ
sub_size a b = (a + 2 ^ 64 - b) % 2 ^ 64

abbrev pub size_max : ℕ
size_max = 2 ^ 64 - 1

infixl 60 ◌bitand◌
infixl 55 ◌bitxor◌
infixl 52 ◌bitor◌
infixl 75 ◌<<<◌ ◌>>>◌
abbrev pub ◌bitand◌ : ℕ → ℕ → ℕ
a bitand b = bit_and a b

abbrev pub ◌bitor◌ : ℕ → ℕ → ℕ
a bitor b = bit_or a b

abbrev pub ◌bitxor◌ : ℕ → ℕ → ℕ
a bitxor b = bit_xor a b

abbrev pub ◌<<<◌ : ℕ → ℕ → ℕ
x <<< k = x * 2 ^ k

abbrev pub ◌>>>◌ : ℕ → ℕ → ℕ
x >>> k = x / 2 ^ k
