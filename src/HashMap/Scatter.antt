-- ===== src/HashMap/Scatter.antt =====
-- Where the entries of a hash map come to when it is rehashed.
use neonrt.Base.{
  ℕ, zero, suc, ◌+◌, ◌%◌, ◌^◌, ◌≡◌, ◌≢◌, ◌≤◌, ◌<◌, ap, List, [], ◌∷◌, ◌++◌, arith, ◌==◌, Bool-cases,
  inl, inr, length, length-append,
}
use neonrt.Memory.{Ptr, null}
use neonrt.HashMap.Slot.{Entry}
use neonrt.HashMap.Represent.{Contents, put}
use neonrt.HashMap.Settle.{Valued}

module _ (digest : List ℕ → ℕ) (new_cap : ℕ) where
  -- An entry follows the others in the bucket of its hash.
  abbrev pub push : List ℕ → Ptr → Contents → Contents
  push key v now = put (digest key % new_cap) (now (digest key % new_cap) ++ ((key, v) ∷ [])) now

  abbrev pub scatter_list : List Entry → Contents → Contents
  scatter_list [] now = now
  scatter_list ((key, v) ∷ es) now = scatter_list es (push key v now)

  -- So do those of `left` buckets from index `i` on.
  abbrev pub scatter : ℕ → ℕ → Contents → Contents → Contents
  scatter zero i before now = now
  scatter (suc left) i before now = scatter left (i + 1) before (scatter_list (before i) now)

-- The number of their entries.
abbrev pub total : ℕ → ℕ → Contents → ℕ
total zero i before = 0
total (suc left) i before = length (before i) + total left (i + 1) before

-- Every bucket can take `n` entries more.
abbrev pub Fits : ℕ → Contents → Type 0
Fits n now = (i : ℕ) → length (now i) + n < 2 ^ 64

module _ (digest : List ℕ → ℕ) (new_cap : ℕ) where
  pub Fits-push :
      (n : ℕ) (key : List ℕ) (v : Ptr) (now : Contents)
      → Fits (n + 1) now
      → Fits n (push digest new_cap key v now)
  unfolding put
  Fits-push n key v now fits i = elim (Bool-cases (i == digest key % new_cap)) [
    | inl t ↦ rw t (
        omega (
          arith,
          fits (digest key % new_cap),
          length-append (now (digest key % new_cap)) ((key, v) ∷ []),
        ))
    | inr t ↦ rw t (omega (arith, fits i))
  ]

  Valued-snoc :
      (es : List Entry) (key : List ℕ) (v : Ptr)
      → Valued es
      → v ≢ null
      → Valued (es ++ ((key, v) ∷ []))
  Valued-snoc [] key v some_values ne = (ne, tt)
  Valued-snoc ((k, w) ∷ es) key v (ne', rest) ne = (ne', Valued-snoc es key v rest ne)

  pub Valued-push :
      (key : List ℕ) (v : Ptr) (now : Contents)
      → ((i : ℕ) → Valued (now i))
      → v ≢ null
      → (i : ℕ) → Valued (push digest new_cap key v now i)
  unfolding put
  Valued-push key v now some_values ne i = elim (Bool-cases (i == digest key % new_cap)) [
    | inl t ↦ rw t (Valued-snoc (now (digest key % new_cap)) key v (some_values _) ne)
    | inr t ↦ rw t (some_values i)
  ]

  pub Fits-scatter_list :
      (n : ℕ) (es : List Entry) (now : Contents)
      → Fits (length es + n) now
      → Fits n (scatter_list digest new_cap es now)
  Fits-scatter_list n [] now fits = λ i. omega (arith, fits i)
  Fits-scatter_list n ((key, v) ∷ es) now fits =
      Fits-scatter_list n es (push digest new_cap key v now)
        (Fits-push (length es + n) key v now (λ i. omega (arith, fits i)))

  pub Valued-scatter_list :
      (es : List Entry) (now : Contents)
      → ((i : ℕ) → Valued (now i))
      → Valued es
      → (i : ℕ) → Valued (scatter_list digest new_cap es now i)
  Valued-scatter_list [] now some_now some_values = some_now
  Valued-scatter_list ((key, v) ∷ es) now some_now some_values =
      Valued-scatter_list es (push digest new_cap key v now)
        (Valued-push key v now some_now some_values.0) some_values.1

  pub Valued-scatter :
      (left i : ℕ) (before now : Contents)
      → ((k : ℕ) → Valued (before k))
      → ((k : ℕ) → Valued (now k))
      → (k : ℕ) → Valued (scatter digest new_cap left i before now k)
  Valued-scatter zero i before now some_before some_now = some_now
  Valued-scatter (suc left) i before now some_before some_now =
      Valued-scatter left (i + 1) before (scatter_list digest new_cap (before i) now) some_before
        (Valued-scatter_list (before i) now some_now (some_before i))

  pub length-push :
      (key : List ℕ) (v : Ptr) (now : Contents) (k : ℕ)
      → length (push digest new_cap key v now k) ≤ length (now k) + 1
  unfolding put
  length-push key v now k = elim (Bool-cases (k == digest key % new_cap)) [
    | inl t ↦
        let e : digest key % new_cap ≡ k = ground arith in
        let e' : length (now (digest key % new_cap)) ≡ length (now k) =
          ap (λ (n : ℕ). length (now n)) e in
        rw t (omega (arith, e', length-append (now (digest key % new_cap)) ((key, v) ∷ [])))
    | inr t ↦ rw t (omega arith)
  ]

  length-scatter_list :
      (es : List Entry) (now : Contents) (k : ℕ)
      → length (scatter_list digest new_cap es now k) ≤ length (now k) + length es
  length-scatter_list [] now k = omega arith
  length-scatter_list ((key, v) ∷ es) now k =
      omega
        (arith, length-scatter_list es (push digest new_cap key v now) k, length-push key v now k)

  -- No bucket comes to more entries than there are.
  pub length-scatter :
      (left i : ℕ) (before now : Contents) (k : ℕ)
      → length (scatter digest new_cap left i before now k) ≤ length (now k) + total left i before
  length-scatter zero i before now k = omega arith
  length-scatter (suc left) i before now k = omega (
    arith,
    length-scatter left (i + 1) before (scatter_list digest new_cap (before i) now) k,
    length-scatter_list (before i) now k,
  )
