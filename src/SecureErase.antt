-- ===== src/SecureErase.antt =====
-- util/secure_erase.c: memory that is overwritten with zeros.
-- The hook that `explicit_erase` ends with is a weak symbol, which a program may define anew. It is a
-- parameter here, with the one of the source, which leaves the bytes, beside it.
use mathlib.Core.List.{append_assoc}
use neonrt.Base.{
  ℕ, zero, suc, ◌+◌, ◌≡◌, ◌≤◌, ◌<◌, refl, ap, Option, none, some, List, [], ◌∷◌, ◌++◌, arith, leb,
  ltb, if◌then◌else◌, Bool-cases, inl, inr, true, length, length-set, set, take, drop, replicate,
  take-append-drop,
}
use neonrt.Base.Checked.{◌>>=◌, put}

-- What a hook makes of the buffer and its length.
abbrev pub EraseHook : Type 0
EraseHook = List ℕ → ℕ → Option (List ℕ)

abbrev pub explicit_erase_hook : EraseHook
explicit_erase_hook buf len = some buf

-- The loop of `explicit_erase` at index `i`, with `len - i` rounds left.
pub erase_loop : ℕ → ℕ → List ℕ → Option (List ℕ)
erase_loop zero i buf = some buf
erase_loop (suc left) i buf = do buf' ← put buf i 0; erase_loop left (i + 1) buf'

pub explicit_erase : EraseHook → List ℕ → ℕ → Option (List ℕ)
unfolding erase_loop
explicit_erase hook buf len = do erased ← erase_loop len 0 buf; hook erased len

take-set :
    (xs : List ℕ) (i v : ℕ) → i < length xs → take (suc i) (set xs i v) ≡ take i xs ++ (v ∷ [])
take-set [] i v lt = absurd (omega arith)
take-set (x ∷ xs) zero v lt = refl
take-set (x ∷ xs) (suc i) v lt = ap (λ ys. x ∷ ys) (take-set xs i v (omega arith))

drop-set : (xs : List ℕ) (i n v : ℕ) → i < n → drop n (set xs i v) ≡ drop n xs
drop-set [] i n v lt = refl
drop-set (x ∷ xs) i zero v lt = absurd (omega arith)
drop-set (x ∷ xs) zero (suc n) v lt = refl
drop-set (x ∷ xs) (suc i) (suc n) v lt = drop-set xs i n v (omega arith)

erase_loop-within :
    (left i : ℕ) (buf : List ℕ)
    → i + left ≤ length buf
    → erase_loop left i buf ≡ some (take i buf ++ (replicate left 0 ++ drop (i + left) buf))
unfolding erase_loop
erase_loop-within zero i buf room =
    let none_left : i + 0 ≡ i = omega arith in rw (none_left, take-append-drop i buf) refl
erase_loop-within (suc left) i buf room =
    let fits : ltb i (length buf) ≡ true = ground arith in
    let rest = erase_loop-within left (i + 1) (set buf i 0) (omega (arith, length-set buf i 0)) in
    let next : i + 1 ≡ suc i = omega arith in
    let upto : i + 1 + left ≡ i + suc left = omega arith in
    rw (fits, rest, upto, drop-set buf i (i + suc left) 0 (omega arith))
      (rw (next, take-set buf i 0 (omega arith)) (ap some (append_assoc (take i buf) (0 ∷ []) _)))

erase_loop-out :
    (left i : ℕ) (buf : List ℕ)
    → i ≤ length buf
    → length buf < i + left
    → erase_loop left i buf ≡ none
unfolding erase_loop
erase_loop-out zero i buf in_ out = absurd (omega arith)
erase_loop-out (suc left) i buf in_ out = elim (Bool-cases (ltb i (length buf))) [
  | inl fits ↦ rw fits (
      erase_loop-out left (i + 1) (set buf i 0) (ground (arith, length-set buf i 0))
        (omega (arith, length-set buf i 0)))
  | inr full ↦ rw full refl
]

-- `explicit_erase` gives the hook a buffer whose first `len` bytes are zeros and whose other bytes are
-- what they were; a length over that of the buffer is out of bounds.
pub explicit_erase_lem :
    (hook : EraseHook) (buf : List ℕ) (len : ℕ)
    → explicit_erase hook buf len
      ≡ (if leb len (length buf) then hook (replicate len 0 ++ drop len buf) len else none)
unfolding explicit_erase
explicit_erase_lem hook buf len = elim (Bool-cases (leb len (length buf))) [
  | inl fits ↦
      let start : 0 + len ≡ len = omega arith in
      rw (fits, erase_loop-within len 0 buf (ground arith), start) refl
  | inr over ↦ rw (over, erase_loop-out len 0 buf (omega arith) (ground arith)) refl
]
