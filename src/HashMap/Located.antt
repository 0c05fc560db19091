-- ===== src/HashMap/Located.antt =====
-- Lookups among the entries of a map before and after they have moved to the buckets of another
-- capacity.
use neonrt.Base.{
  ℕ, zero, suc, ◌+◌, ◌%◌, ◌≡◌, ◌≢◌, refl, sym, ap, ◌∙◌, true, false, Option, some, none, List, [],
  ◌∷◌, ◌++◌, arith, ◌==◌, ltb, if◌then◌else◌, Bool-cases, inl, inr,
}
use neonrt.Memory.{Ptr}
use neonrt.SipWrapper.{SipHash}
use neonrt.Buffer.Compare.{runtime_hash}
use neonrt.HashMap.Slot.{Entry}
use neonrt.HashMap.Find.{find}
use neonrt.HashMap.Represent.{Contents, put}
use neonrt.HashMap.Scatter.{push, scatter_list, scatter}

-- The first answer, or else the second.
abbrev pub or_else : Option Ptr → Option Ptr → Option Ptr
or_else none y = y
or_else (some v) y = some v

or_else-none : (x : Option Ptr) → or_else x none ≡ x
or_else-none none = refl
or_else-none (some v) = refl

or_else_assoc : (x y z : Option Ptr) → or_else (or_else x y) z ≡ or_else x (or_else y z)
or_else_assoc none y z = refl
or_else_assoc (some v) y z = refl

module _ (sip : SipHash) where
  -- The keys are in the bucket of their hash.
  abbrev pub Located : (size i : ℕ) → List Entry → Type 0
  Located size i [] = Unit {0}
  Located size i ((key, v) ∷ es) = (runtime_hash sip key % size ≡ i) × Located size i es

  pub Located-snoc :
      (size i : ℕ) (es : List Entry) (key : List ℕ) (v : Ptr)
      → Located size i es
      → runtime_hash sip key % size ≡ i
      → Located size i (es ++ ((key, v) ∷ []))
  Located-snoc size i [] key v located at = (at, tt)
  Located-snoc size i ((k, w) ∷ es) key v (at', rest) at =
      (at', Located-snoc size i es key v rest at)

  find-append :
      (key : List ℕ) (es es' : List Entry)
      → find sip key (es ++ es') ≡ or_else (find sip key es) (find sip key es')
  unfolding find
  find-append key [] es' = refl
  find-append key ((k, v) ∷ es) es' =
      elim (Bool-cases (runtime_hash sip k == runtime_hash sip key)) [
        | inl t ↦ rw t refl
        | inr f ↦ rw f (find-append key es es')
      ]

  find-cons :
      (key k : List ℕ) (v : Ptr) (es : List Entry)
      → find sip key ((k, v) ∷ es) ≡ or_else (find sip key ((k, v) ∷ [])) (find sip key es)
  find-cons key k v es = find-append key ((k, v) ∷ []) es

  find-Located :
      (size i : ℕ) (key : List ℕ) (es : List Entry)
      → Located size i es
      → runtime_hash sip key % size ≢ i
      → find sip key es ≡ none
  unfolding find
  find-Located size i key [] located ne = refl
  find-Located size i key ((k, v) ∷ es) (at, rest) ne =
      let other : runtime_hash sip k ≢ runtime_hash sip key =
        λ e. ne (ap (λ (n : ℕ). n % size) (sym e) ∙ at) in
      let differ : (runtime_hash sip k == runtime_hash sip key) ≡ false = ground arith in
      rw differ (find-Located size i key es rest ne)

  module _ (new_cap : ℕ) (key : List ℕ) where
    abbrev pub home : ℕ
    home = runtime_hash sip key % new_cap

    find-push :
        (k : List ℕ) (v : Ptr) (now : Contents)
        → find sip key (push (runtime_hash sip) new_cap k v now home)
          ≡ or_else (find sip key (now home)) (find sip key ((k, v) ∷ []))
    unfolding find put
    find-push k v now = elim (Bool-cases (home == runtime_hash sip k % new_cap)) [
      | inl t ↦
          let e : runtime_hash sip k % new_cap ≡ home = ground arith in
          rw t (
            find-append key (now (runtime_hash sip k % new_cap)) ((k, v) ∷ [])
            ∙ ap (λ (n : ℕ). or_else (find sip key (now n)) (find sip key ((k, v) ∷ []))) e)
      | inr f ↦
          let other : runtime_hash sip k ≢ runtime_hash sip key =
            λ e. ground (arith, f, ap (λ (n : ℕ). n % new_cap) e) in
          let differ : (runtime_hash sip k == runtime_hash sip key) ≡ false = ground arith in
          rw (f, differ) (sym (or_else-none (find sip key (now home))))
    ]

    find-scatter_list :
        (es : List Entry) (now : Contents)
        → find sip key (scatter_list (runtime_hash sip) new_cap es now home)
          ≡ or_else (find sip key (now home)) (find sip key es)
    unfolding find
    find-scatter_list [] now = sym (or_else-none (find sip key (now home)))
    find-scatter_list ((k, v) ∷ es) now =
        find-scatter_list es (push (runtime_hash sip) new_cap k v now)
        ∙ ap (λ x. or_else x (find sip key es)) (find-push k v now)
        ∙ or_else_assoc (find sip key (now home)) (find sip key ((k, v) ∷ [])) (find sip key es)
        ∙ ap (or_else (find sip key (now home))) (sym (find-cons key k v es))

    -- The first answer of the buckets from index `i` on.
    find_from : ℕ → ℕ → Contents → Option Ptr
    find_from zero i before = none
    find_from (suc left) i before =
        or_else (find sip key (before i)) (find_from left (i + 1) before)

    find-scatter :
        (left i : ℕ) (before now : Contents)
        → find sip key (scatter (runtime_hash sip) new_cap left i before now home)
          ≡ or_else (find sip key (now home)) (find_from left i before)
    unfolding find_from
    find-scatter zero i before now = sym (or_else-none (find sip key (now home)))
    find-scatter (suc left) i before now =
        find-scatter left (i + 1) before (scatter_list (runtime_hash sip) new_cap (before i) now)
        ∙ ap (λ x. or_else x (find_from left (i + 1) before)) (find-scatter_list (before i) now)
        ∙ or_else_assoc (find sip key (now home)) (find sip key (before i))
            (find_from left (i + 1) before)

    -- Only one of the buckets can have an answer.
    find_from-Located :
        (size left i : ℕ) (before : Contents)
        → ((k : ℕ) → Located size k (before k))
        → find_from left i before ≡ (
            if ltb (runtime_hash sip key % size) i
            then none
            else if ltb (runtime_hash sip key % size) (i + left)
            then find sip key (before (runtime_hash sip key % size))
            else none)
    unfolding find_from
    find_from-Located size zero i before located = ground arith
    find_from-Located size (suc left) i before located =
        let n = runtime_hash sip key % size in
        let rest = find_from-Located size left (i + 1) before located in
        elim (Bool-cases (n == i)) [
          | inl t ↦
              let e : n ≡ i = ground arith in
              let past : find_from left (i + 1) before ≡ none = ground (arith, rest) in
              let here : find sip key (before i) ≡ find sip key (before n) =
                ap (λ (x : ℕ). find sip key (before x)) (sym e) in
              let at_or_after : ltb n i ≡ false = ground arith in
              let within : ltb n (i + suc left) ≡ true = ground arith in
              rw (past, at_or_after, within) (or_else-none (find sip key (before i)) ∙ here)
          | inr f ↦
              let missing : find sip key (before i) ≡ none =
                find-Located size i key (before i) (located i) (ground arith) in
              rw missing (ground (arith, rest))
        ]

  -- Moving all entries of a map to the buckets of another capacity keeps every answer.
  pub find_kept :
      (size new_cap : ℕ) (key : List ℕ) (before : Contents)
      → size ≢ 0
      → ((k : ℕ) → Located size k (before k))
      → find sip key (
          scatter
            (runtime_hash sip)
            new_cap
            size
            0
            before
            (λ i. [])
            (runtime_hash sip key % new_cap))
        ≡ find sip key (before (runtime_hash sip key % size))
  unfolding find
  find_kept size new_cap key before ne located =
      let inside : ltb (runtime_hash sip key % size) size ≡ true = ground (arith, ne) in
      find-scatter new_cap key size 0 before (λ i. [])
      ∙ (find_from-Located new_cap key size size 0 before located ∙ ground (arith, inside))

  pub Located-push :
      (new_cap : ℕ) (key : List ℕ) (v : Ptr) (now : Contents)
      → ((k : ℕ) → Located new_cap k (now k))
      → (k : ℕ) → Located new_cap k (push (runtime_hash sip) new_cap key v now k)
  unfolding put
  Located-push new_cap key v now located k =
      elim (Bool-cases (k == runtime_hash sip key % new_cap)) [
        | inl t ↦
            let e : runtime_hash sip key % new_cap ≡ k = ground arith in
            rw (t, e) (Located-snoc new_cap k (now k) key v (located k) e)
        | inr t ↦ rw t (located k)
      ]

  Located-scatter_list :
      (new_cap : ℕ) (es : List Entry) (now : Contents)
      → ((k : ℕ) → Located new_cap k (now k))
      → (k : ℕ) → Located new_cap k (scatter_list (runtime_hash sip) new_cap es now k)
  Located-scatter_list new_cap [] now located = located
  Located-scatter_list new_cap ((key, v) ∷ es) now located =
      Located-scatter_list new_cap es (push (runtime_hash sip) new_cap key v now)
        (Located-push new_cap key v now located)

  -- In the new array as well the keys are in the bucket of their hash.
  pub Located-scatter :
      (new_cap left i : ℕ) (before now : Contents)
      → ((k : ℕ) → Located new_cap k (now k))
      → (k : ℕ) → Located new_cap k (scatter (runtime_hash sip) new_cap left i before now k)
  Located-scatter new_cap zero i before now located = located
  Located-scatter new_cap (suc left) i before now located =
      Located-scatter new_cap left (i + 1) before
        (scatter_list (runtime_hash sip) new_cap (before i) now)
        (Located-scatter_list new_cap (before i) now located)
