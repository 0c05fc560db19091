-- ===== src/Wire/Order.antt =====
-- What the functions of wire.c promise, for any width: a number is the sequence of its digits to
-- base 256, lowest first or highest first.
use mathlib.Core.List.{reverse}
use neonrt.Base.{ℕ, zero, suc, ◌+◌, ◌*◌, ◌/◌, ◌%◌}
use neonrt.Base.{Option, none, some, List, [], ◌∷◌, ◌++◌, map}
use neonrt.Base.{leb, if◌then◌else◌, length, take, drop}
use neonrt.Word.{u8}

pub data Endian : Type 0 where
  little big : Endian

unfoldable pub le_value : List ℕ → ℕ
le_value [] = 0
le_value (b ∷ bs) = b + 256 * le_value bs

unfoldable pub le_bytes : ℕ → ℕ → List ℕ
le_bytes zero v = []
le_bytes (suc n) v = v % 256 ∷ le_bytes n (v / 256)

unfoldable pub in_order : Endian → List ℕ → List ℕ
in_order little bs = bs
in_order big bs = reverse bs

-- The number in the first `n` bytes; `none` if there are fewer.
unfoldable pub decode : Endian → ℕ → List ℕ → Option ℕ
unfolding le_value in_order
decode e n buffer =
    if leb n (length buffer) then some (le_value (in_order e (map u8 (take n buffer)))) else none

-- The first `n` bytes replaced by those of the number; `none` if there are fewer.
unfoldable pub encode : Endian → ℕ → List ℕ → ℕ → Option (List ℕ)
unfolding le_bytes in_order
encode e n buffer v =
    if leb n (length buffer) then some (in_order e (le_bytes n v) ++ drop n buffer) else none
