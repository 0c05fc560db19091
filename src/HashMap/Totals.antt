-- ===== src/HashMap/Totals.antt =====
-- The number of entries of a map, as entries are added and as they move.
use neonrt.Base.{
  ℕ, zero, suc, ◌+◌, ◌%◌, ◌≡◌, ◌≢◌, ◌<◌, refl, ap, ◌&&◌, not, List, [], ◌∷◌, ◌++◌, arith, ◌==◌, ltb,
  if◌then◌else◌, Bool-cases, inl, inr, length, length-append,
}
use neonrt.HashMap.Slot.{Entry}
use neonrt.HashMap.Represent.{Contents, put}
use neonrt.HashMap.Scatter.{push, scatter_list, scatter, total}

total-put_from :
    (left i k : ℕ) (now : Contents) (e : Entry)
    → total left i (put k (now k ++ (e ∷ [])) now)
      ≡ total left i now + (if not (ltb k i) && ltb k (i + left) then 1 else 0)
unfolding put
total-put_from zero i k now e = ground arith
total-put_from (suc left) i k now e =
    let rest = total-put_from left (i + 1) k now e in
    let longer = length-append (now k) (e ∷ []) in
    elim (Bool-cases (i == k)) [
      | inl t ↦
          let at : i ≡ k = ground arith in
          let same : length (now i) ≡ length (now k) = ap (λ (n : ℕ). length (now n)) at in
          rw t (ground (arith, rest, longer, same))
      | inr f ↦ rw f (ground (arith, rest))
    ]

-- One more entry in a bucket that is there.
pub total-put :
    (n k : ℕ) (now : Contents) (e : Entry)
    → k < n
    → total n 0 (put k (now k ++ (e ∷ [])) now) ≡ total n 0 now + 1
total-put n k now e lt = ground (arith, total-put_from n 0 k now e)

module _ (digest : List ℕ → ℕ) (new_cap : ℕ) (ne : new_cap ≢ 0) where
  total-scatter_list :
      (es : List Entry) (now : Contents)
      → total new_cap 0 (scatter_list digest new_cap es now) ≡ total new_cap 0 now + length es
  total-scatter_list [] now = omega arith
  total-scatter_list ((key, v) ∷ es) now =
      let lt : digest key % new_cap < new_cap = ground arith in
      omega (
        arith,
        total-scatter_list es (push digest new_cap key v now),
        total-put new_cap (digest key % new_cap) now (key, v) lt,
      )

  -- No entry is lost, and none is counted twice.
  pub total-scatter :
      (left i : ℕ) (before now : Contents)
      → total new_cap 0 (scatter digest new_cap left i before now)
        ≡ total new_cap 0 now + total left i before
  total-scatter zero i before now = omega arith
  total-scatter (suc left) i before now = omega (
    arith,
    total-scatter left (i + 1) before (scatter_list digest new_cap (before i) now),
    total-scatter_list (before i) now,
  )

pub total-empty : (left i : ℕ) → total left i (λ k. []) ≡ 0
total-empty zero i = refl
total-empty (suc left) i = omega (arith, total-empty left (i + 1))
