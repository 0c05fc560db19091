-- ===== src/Base/Checked.antt =====
-- Steps that an access out of bounds stops: `none` is what C leaves undefined.
use Prim.Native.Nat.{ℕ}
use mathlib.Core.Option.{Option, none, some}
use mathlib.Core.List.{List}
use neonrt.Base.Tests.{ltb, if◌then◌else◌}
use neonrt.Base.Lists.{length, set}

infixl 5 ◌>>=◌
abbrev pub ◌>>=◌ {ℓ κ} : {A : Type ℓ} {B : Type κ} → Option A → (A → Option B) → Option B
none >>= k = none
some a >>= k = k a

-- `buffer[i] = b`
abbrev pub put {ℓ} : {A : Type ℓ} → List A → ℕ → A → Option (List A)
put buffer i b = if ltb i (length buffer) then some (set buffer i b) else none
