-- ===== src/RingBuffer/Window.antt =====
-- The bytes that a ring holds: a window that goes round at the capacity.
use native.Mathlib.Decide.{dec_lt}
use native.Mathlib.Nat.{add-zero, mod-add-mod, mod-eq_of_lt, mod-eq-sub-mod}
use neonrt.Base.{
  ℕ, zero, suc, ◌+◌, ◌-◌, ◌%◌, ◌^◌, ◌≤◌, ◌<◌, ◌≡◌, ◌≢◌, refl, ap, ap₂, sym, ◌∙◌, arith,
}
use neonrt.Base.{List, [], ◌∷◌, ◌++◌, length, get_or, set, get_or-set_self, get_or-set_ne}
use neonrt.RingBuffer.{RingBuffer}

-- The `n` bytes from index `h` on.
abbrev pub window : List ℕ → ℕ → ℕ → ℕ → List ℕ
window buffer capacity h zero = []
window buffer capacity h (suc n) = get_or buffer h 0 ∷ window buffer capacity ((h + 1) % capacity) n

abbrev pub contents : RingBuffer → List ℕ
contents r = window r.buffer r.capacity r.head r.size

pub record IsValid (r : RingBuffer) : Type 0 where
  pub storage : r.capacity ≤ length r.buffer
  pub bounded : r.capacity < 2 ^ 64
  pub head_in : r.head < r.capacity
  pub size_in : r.size ≤ r.capacity
  pub tail_at : r.tail ≡ (r.head + r.size) % r.capacity

pub length-window : (buffer : List ℕ) (capacity h n : ℕ) → length (window buffer capacity h n) ≡ n
length-window buffer capacity h zero = refl
length-window buffer capacity h (suc n) =
    ap suc (length-window buffer capacity ((h + 1) % capacity) n)

-- Steps of the index add up.
pub step_add : (h n capacity : ℕ) → ((h + 1) % capacity + n) % capacity ≡ (h + suc n) % capacity
step_add h n capacity = mod-add-mod (h + 1) capacity n ∙ ap (λ t. t % capacity) (omega arith)

-- Fewer than `capacity` steps do not come back to the start.
pub step-ne : {capacity h k : ℕ} → h < capacity → suc k < capacity → (h + suc k) % capacity ≢ h
step-ne {capacity} {h} {k} hh hk e = elim (dec_lt (h + suc k) capacity) [
  | yes p ↦ omega (arith, mod-eq_of_lt p)
  | no p ↦ omega (
    arith,
    mod-eq-sub-mod {n = h + suc k} {m = capacity} (omega arith),
    mod-eq_of_lt {n = h + suc k - capacity} {m = capacity} (omega arith),
  )
]

-- A byte written just past a window of fewer than `capacity` bytes extends it.
pub window-set :
    (buffer : List ℕ) (capacity b n h i : ℕ)
    → capacity ≤ length buffer
    → h < capacity
    → n < capacity
    → i ≡ (h + n) % capacity
    → window (set buffer i b) capacity h (suc n) ≡ window buffer capacity h n ++ (b ∷ [])
window-set buffer capacity b zero h i hs hh hn e =
    let here : i ≡ h = e ∙ ap (λ t. t % capacity) (add-zero h) ∙ mod-eq_of_lt hh in
    rw (here, get_or-set_self buffer h b 0 (omega arith))
window-set buffer capacity b (suc n) h i hs hh hn e =
    ap₂ ◌∷◌ (get_or-set_ne buffer b 0 (rw e (step-ne hh hn))) (
      window-set buffer capacity b n ((h + 1) % capacity) i hs (omega arith) (omega arith)
        (rw step_add e))

-- A window splits at any length.
pub window-append :
    (buffer : List ℕ) (capacity m n h : ℕ)
    → h < capacity
    → window buffer capacity h (m + n)
      ≡ window buffer capacity h m ++ window buffer capacity ((h + m) % capacity) n
window-append buffer capacity zero n h hh =
    ap₂ (window buffer capacity) (sym (ap (λ t. t % capacity) (add-zero h) ∙ mod-eq_of_lt hh))
      (omega arith)
window-append buffer capacity (suc m) n h hh =
    ap (window buffer capacity h) {y = suc (m + n)} (omega arith)
    ∙ ap (λ t. get_or buffer h 0 ∷ t)
        (window-append buffer capacity m n ((h + 1) % capacity) (omega arith)
          ∙ ap (λ t. window buffer capacity ((h + 1) % capacity) m ++ window buffer capacity t n)
              (step_add h m capacity))
