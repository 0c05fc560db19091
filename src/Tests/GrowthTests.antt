-- ===== src/Tests/GrowthTests.antt =====
-- Maps that grow: fourteen keys set in a map of sixteen buckets, and eighty in one of a hundred.
use neonrt.Base.{
  ℕ, zero, suc, ◌+◌, ◌*◌, ◌%◌, ◌^◌, ◌≡◌, ◌≢◌, ◌≤◌, ◌<◌, refl, sym, ap, ◌∙◌, false, some, none, List,
  [], ◌∷◌, arith, ◌==◌,
}
use neonrt.Memory.{Allocator}
use neonrt.Memory.Frame.{Roomy}
use neonrt.Wire.Order.{decode}
use neonrt.SipWrapper.Laws.{wrap_siphash-decode}
use neonrt.Buffer.Compare.{runtime_hash, wrap_siphash-runtime_hash}
use neonrt.HashMap.{Env, default_seed}
use neonrt.HashMap.Dict.{Dict, bind, Op, set, get, serve}
use neonrt.HashMap.Default.{no_keys}
use neonrt.HashMap.Growth.{Apt, blocks, NewThrives, new_map_grows}
use neonrt.HashMap.Lifetime.{Lived, map_lifetime}
use neonrt.Guest.{Guested, guest_map_grows}
use neonrt.Tests.Fixtures.{pick, pick_fresh}
use neonrt.Tests.Roomy.{pick-le, echo, env}

-- The first free address up to `n`.
unfoldable first_of : ℕ → Allocator
unfolding pick
first_of n = record { malloc = λ k h. pick n 1 h; malloc_fresh = λ k h ne. pick_fresh n 1 h ne }

first_of-Roomy : (n : ℕ) → Roomy (first_of n) n
unfolding first_of
first_of-Roomy n = record {
  gives = λ k h p pos lt below.
      (pick-le n 1 h p (omega arith) pos (omega (arith, lt)) (below p (omega arith))).0;
  stays = λ k h p pos lt below.
      (pick-le n 1 h p (omega arith) pos (omega (arith, lt)) (below p (omega arith))).1;
}

abbrev wide : Env
wide = record env { alloc = first_of 2000; rounds = 20 }

byte_hash : (b : ℕ) → some (runtime_hash echo (b ∷ [])) ≡ some (b % 256 * 256 ^ 7)
unfolding decode
byte_hash b =
    sym (wrap_siphash-runtime_hash echo (b ∷ []))
    ∙ (wrap_siphash-decode echo (b ∷ []) default_seed ∙ ap some (omega arith))

-- The keys from `b` on, and then the first key of all.
abbrev sets : ℕ → ℕ → List Op
sets zero b = get (1 ∷ []) ∷ []
sets (suc n) b = set (b ∷ []) 900 false ∷ sets n (b + 1)

sets-Apt :
    (n b : ℕ) (d : Dict)
    → ((c : ℕ) → b ≤ c → c < 256 → d (runtime_hash echo (c ∷ [])) ≡ none)
    → d (runtime_hash echo (1 ∷ [])) ≢ none
    → b + n ≤ 256
    → Apt echo d (sets n b)
unfolding bind
sets-Apt zero b d new present room = (present, tt)
sets-Apt (suc n) b d new present room = (
  new b (omega arith) (omega arith),
  omega arith,
  sets-Apt n (b + 1) (bind (runtime_hash echo (b ∷ [])) 900 d)
      (λ c le lt.
        let other : (runtime_hash echo (c ∷ []) == runtime_hash echo (b ∷ [])) ≡ false =
          ground (arith, byte_hash c, byte_hash b) in
        rw other (new c (omega arith) lt))
      (λ e. ground (arith, present, e)) (omega arith),
)

abbrev first_sets : ℕ → List Op
first_sets n = set (1 ∷ []) 900 false ∷ sets n 2

first_sets-Apt : (n : ℕ) → n ≤ 254 → Apt echo no_keys (first_sets n)
unfolding bind
first_sets-Apt n few = (
  refl,
  omega arith,
  sets-Apt n 2 (bind (runtime_hash echo (1 ∷ [])) 900 no_keys)
      (λ c le lt.
        let other : (runtime_hash echo (c ∷ []) == runtime_hash echo (1 ∷ [])) ≡ false =
          ground (arith, byte_hash c, byte_hash 1) in
        rw other refl)
      (λ e. ground (arith, e)) (omega (arith, few)),
)

abbrev fourteen : List Op
fourteen = first_sets 13

fourteen-Apt : Apt echo no_keys fourteen
fourteen-Apt = first_sets-Apt 13 (omega arith)

new_map_grows_example :
    NewThrives wide
      (λ p. none)
      fourteen
      (serve echo no_keys fourteen).0
      (serve echo no_keys fourteen).1
      (1 + 2 + blocks 0 fourteen)
new_map_grows_example =
    new_map_grows wide fourteen 1 (first_of-Roomy 2000) fourteen-Apt (omega arith) (omega arith)
      (omega arith) (omega arith) (λ q le. refl)

map_lifetime_example :
    Lived wide (λ p. none) fourteen (serve echo no_keys fourteen).0 (serve echo no_keys fourteen).1
map_lifetime_example =
    map_lifetime wide fourteen 1 (first_of-Roomy 2000) fourteen-Apt (omega arith) (omega arith)
      (omega arith) (omega arith) (λ q le. refl)

-- Eighty keys, with which a map of a hundred buckets grows.
abbrev crowded : Env
crowded = record env { alloc = first_of 30000; rounds = 100 }

abbrev eighty : List Op
eighty = first_sets 79

guest_map_grows_example :
    Guested crowded
      (λ p. none)
      eighty
      (serve echo no_keys eighty).0
      (serve echo no_keys eighty).1
      (1 + 2 + blocks 0 eighty)
guest_map_grows_example =
    guest_map_grows crowded eighty 1 (first_of-Roomy 30000) (first_sets-Apt 79 (omega arith))
      (omega arith) (omega arith) (omega arith) (omega arith) (λ q le. refl)
