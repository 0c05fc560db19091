-- ===== src/Buffer/Utf8.antt =====
-- `validate_utf8` on text and on bytes that are none.
use neonrt.Base.{
  ℕ, zero, suc, ◌+◌, ◌-◌, ◌^◌, ◌≡◌, ◌≤◌, ◌<◌, refl, ◌∙◌, true, false, none, some, List, arith,
}
use neonrt.Base.{drop, ltb, ◌==◌, lt→ltb}
use neonrt.Word.{add_size}
use native.Mathlib.Nat.{le_refl}
use neonrt.Buffer.{Utf8proc, validate_loop, validate_utf8}

-- The bytes from an index to `len` split into code points of 1 to 4 bytes, as `iterate` measures them.
pub data IsUtf8 (u : Utf8proc) (bytes : List ℕ) (len : ℕ) : ℕ → Type 0 where
  end : IsUtf8 u bytes len len
  code_point :
      {idx : ℕ}
      → 0 < u.iterate (drop idx bytes)
      → u.iterate (drop idx bytes) ≤ 4
      → idx < len
      → IsUtf8 u bytes len (idx + u.iterate (drop idx bytes))
      → IsUtf8 u bytes len idx

-- `UTF8PROC_ERROR_INVALIDUTF8`, -3, as a `size_t`.
abbrev pub invalid_utf8 : ℕ
invalid_utf8 = 2 ^ 64 - 3

IsUtf8-le : {u : Utf8proc} {bytes : List ℕ} {len idx : ℕ} → IsUtf8 u bytes len idx → idx ≤ len
IsUtf8-le end = le_refl _
IsUtf8-le (code_point pos small lt rest) = omega arith

module _ (u : Utf8proc) (bytes : List ℕ) (len : ℕ) where
  -- One round that does not end the loop.
  loop-step :
      (rounds idx next : ℕ)
      → idx < len
      → add_size idx (u.iterate (drop idx bytes)) ≡ next
      → 0 < next
      → validate_loop u bytes len (suc rounds) idx ≡ validate_loop u bytes len rounds next
  unfolding validate_loop
  loop-step rounds idx next lt e pos =
      let inside = lt→ltb idx len lt in
      let later : (next == 0) ≡ false = ground arith in rw (inside, e, later)

  loop-end : (rounds idx : ℕ) → len ≤ idx → validate_loop u bytes len (suc rounds) idx ≡ some true
  unfolding validate_loop
  loop-end rounds idx le = let past : ltb idx len ≡ false = ground arith in rw past

  loop_valid :
      (rounds : ℕ) {idx : ℕ}
      → len + 4 < 2 ^ 64
      → IsUtf8 u bytes len idx
      → len < rounds + idx
      → validate_loop u bytes len rounds idx ≡ some true
  loop_valid zero small valid more = absurd (omega (arith, IsUtf8-le valid))
  loop_valid (suc rounds) small end more = loop-end rounds len (le_refl len)
  loop_valid (suc rounds) small (code_point {idx} pos step lt rest) more =
      loop-step rounds idx (idx + u.iterate (drop idx bytes)) lt (omega arith) (omega arith)
      ∙ loop_valid rounds small rest (omega arith)

  -- The indices 1 to 4 lead to one another.
  loop_cycle :
      (rounds : ℕ)
      → 4 < len
      → u.iterate (drop 1 bytes) ≡ 1
      → u.iterate (drop 2 bytes) ≡ 1
      → u.iterate (drop 3 bytes) ≡ 1
      → u.iterate (drop 4 bytes) ≡ invalid_utf8
      → (validate_loop u bytes len rounds 1 ≡ none)
        × (validate_loop u bytes len rounds 2 ≡ none)
        × (validate_loop u bytes len rounds 3 ≡ none)
        × (validate_loop u bytes len rounds 4 ≡ none)
  loop_cycle zero more e₁ e₂ e₃ e₄ = unfold validate_loop in (refl, refl, refl, refl)
  loop_cycle (suc rounds) more e₁ e₂ e₃ e₄ =
      let ih = loop_cycle rounds more e₁ e₂ e₃ e₄ in
      (
        loop-step rounds 1 2 (omega arith) (rw e₁) (omega arith) ∙ ih.1,
        loop-step rounds 2 3 (omega arith) (rw e₂) (omega arith) ∙ ih.2,
        loop-step rounds 3 4 (omega arith) (rw e₃) (omega arith) ∙ ih.3,
        loop-step rounds 4 1 (omega arith) (rw e₄) (omega arith) ∙ ih.0,
      )

-- On bytes that split into code points, of a length below `2 ^ 64 - 4`, `validate_utf8` answers true; one
-- round more than the length suffices.
pub validate_utf8_valid :
    (u : Utf8proc) (bytes : List ℕ) (len : ℕ)
    → len + 4 < 2 ^ 64
    → IsUtf8 u bytes len 0
    → validate_utf8 u (len + 1) bytes len ≡ some true
unfolding validate_utf8
validate_utf8_valid u bytes len small valid =
    loop_valid u bytes len (len + 1) small valid (omega arith)

-- Where the first bytes are no code point and the length is below `2 ^ 64 - 3`, `validate_utf8` answers
-- true all the same, in two rounds or more.
pub validate_utf8_invalid_start :
    (u : Utf8proc) (bytes : List ℕ) (len rounds : ℕ)
    → 0 < len
    → len < invalid_utf8
    → u.iterate bytes ≡ invalid_utf8
    → validate_utf8 u (suc (suc rounds)) bytes len ≡ some true
unfolding validate_utf8
validate_utf8_invalid_start u bytes len rounds pos small e =
    loop-step u bytes len (suc rounds) 0 invalid_utf8 pos (rw e) (omega arith)
    ∙ loop-end u bytes len rounds invalid_utf8 (omega arith)

-- Where four code points of one byte are followed by bytes that are none, `validate_utf8` goes back
-- three bytes and on again for ever: no number of rounds gives an answer.
pub validate_utf8_diverges :
    (u : Utf8proc) (bytes : List ℕ) (len rounds : ℕ)
    → 4 < len
    → u.iterate bytes ≡ 1
    → u.iterate (drop 1 bytes) ≡ 1
    → u.iterate (drop 2 bytes) ≡ 1
    → u.iterate (drop 3 bytes) ≡ 1
    → u.iterate (drop 4 bytes) ≡ invalid_utf8
    → validate_utf8 u rounds bytes len ≡ none
unfolding validate_utf8
validate_utf8_diverges u bytes len zero more e₀ e₁ e₂ e₃ e₄ = unfold validate_loop in refl
validate_utf8_diverges u bytes len (suc rounds) more e₀ e₁ e₂ e₃ e₄ =
    loop-step u bytes len rounds 0 1 (omega arith) (rw e₀) (omega arith)
    ∙ (loop_cycle u bytes len rounds more e₁ e₂ e₃ e₄).0
