-- ===== src/Tests/Roomy.antt =====
-- An allocator with room, a hash function that tells keys apart, and a map without lists.
use neonrt.Base.{
  ℕ, zero, suc, ◌+◌, ◌*◌, ◌^◌, sym, ◌∙◌, ◌≡◌, ◌≢◌, ◌≤◌, ◌<◌, refl, none, some, List, [], ◌∷◌, false,
  arith, ◌==◌, if◌then◌else◌, Option-cases, inl, inr, replicate, length, ap,
}
use neonrt.Memory.{Ptr, null, buckets, Heap, Allocator, ok}
use neonrt.Memory.Rules.{Holds}
use neonrt.Memory.Frame.{Below, Roomy}
use neonrt.Wire.Order.{decode}
use neonrt.SipWrapper.{SipHash}
use neonrt.SipWrapper.Laws.{wrap_siphash-decode}
use neonrt.Buffer.Compare.{runtime_hash, wrap_siphash-runtime_hash}
use neonrt.HashMap.{
  Hmap, Env, default_error_callback, default_unhealthy, empty_bucket, default_seed,
}
use neonrt.HashMap.Lookup.{Reaches}
use neonrt.HashMap.Slot.{vacant, single}
use neonrt.HashMap.Represent.{Contents, Place, Represents}
use neonrt.Tests.Fixtures.{pick, pick_fresh, memory, memory-IsBuff, two_buckets, buckets_at}

pub pick-le :
    (k a : ℕ) (h : Heap) (p : Ptr)
    → 0 < a
    → a ≤ p
    → p < a + k
    → h p ≡ none
    → (pick k a h ≢ null) × (pick k a h ≤ p)
unfolding pick
pick-le zero a h p pos le lt unused = ground arith
pick-le (suc k) a h p pos le lt unused = elim (Option-cases (h a)) [
  | inl e ↦ rw e (ground arith, le)
  | inr (o, e) ↦
      let ne : a ≢ p = λ q. ground (arith, ap h q) in
      rw e (pick-le k (a + 1) h p (omega arith) (ground arith) (omega arith) unused)
]

-- The first free address below 201.
unfoldable pub spacious : Allocator
unfolding pick
spacious = record { malloc = λ n h. pick 200 1 h; malloc_fresh = λ n h ne. pick_fresh 200 1 h ne }

pub spacious-Roomy : Roomy spacious 200
unfolding spacious
spacious-Roomy = record {
  gives = λ n h p pos lt below.
      (pick-le 200 1 h p (omega arith) pos (omega arith) (below p (omega arith))).0;
  stays = λ n h p pos lt below.
      (pick-le 200 1 h p (omega arith) pos (omega arith) (below p (omega arith))).1;
}

abbrev first_byte : List ℕ → ℕ
first_byte [] = 0
first_byte (b ∷ _) = b

-- The first byte as the highest byte of the hash.
abbrev pub echo : SipHash
echo = record {
  siphash = λ input key. first_byte input ∷ replicate 7 0;
  length-siphash = λ input key. refl;
}

abbrev pub env : Env
env = record {
  alloc = spacious;
  sip = echo;
  user_callback = λ n resize load m h. ok (tt, m) h;
  rounds = 9;
}

first_hash : some (runtime_hash echo (1 ∷ [])) ≡ some (256 ^ 7)
unfolding decode
first_hash =
    sym (wrap_siphash-runtime_hash echo (1 ∷ [])) ∙ wrap_siphash-decode echo (1 ∷ []) default_seed

second_hash : some (runtime_hash echo (2 ∷ [])) ≡ some (2 * 256 ^ 7)
unfolding decode
second_hash =
    sym (wrap_siphash-runtime_hash echo (2 ∷ [])) ∙ wrap_siphash-decode echo (2 ∷ []) default_seed

-- The two keys have two hashes.
pub differ : (runtime_hash echo (2 ∷ []) == runtime_hash echo (1 ∷ [])) ≡ false
differ = ground (arith, first_hash, second_hash)

pub differ' : (runtime_hash echo (1 ∷ []) == runtime_hash echo (2 ∷ [])) ≡ false
differ' = ground (arith, differ)

abbrev pub small_map : Hmap
small_map = record {
  self = 19;
  capacity = 2;
  set = 1;
  load_factor = 50;
  unhealthy_threshold = 500;
  seed = 3;
  collisions = 0;
  hash_fn = λ key seed. some (length key);
  bucket_array = 20;
  resize_bound = 0;
  error_callback = default_error_callback;
  unhealthy_callback = default_unhealthy;
  last_error_msg = ("", "");
  last_error_code = 0;
  unrecoverable_error = false;
  locked = false;
  reports = [];
}

-- The second of two buckets holds the key at address 50.
abbrev pub one_key : Contents
one_key zero = []
one_key (suc zero) = (1 ∷ [], 900) ∷ []
one_key (suc (suc _)) = []

one_key-Place : (i : ℕ) → i < 2 → Place memory two_buckets i null null (one_key i) (λ a. 0) (0 + i)
one_key-Place zero lt = record {
  bucket = _;
  found = refl;
  slot = vacant refl refl refl refl refl;
  owned = tt;
}
one_key-Place (suc zero) lt = record {
  bucket = _;
  found = refl;
  slot =
      single refl refl refl
        (record { struct = _; bytes = _; is = memory-IsBuff; holds = refl; unlocked = refl }) refl;
  owned = tt;
}
one_key-Place (suc (suc i)) lt = absurd (omega arith)

pub small_map-Represents : Represents small_map memory one_key
unfolding memory
small_map-Represents = record {
  struct = record { ne_null = omega arith; at = refl };
  unlocked = refl;
  recoverable = refl;
  bs = two_buckets;
  array = buckets_at;
  capacity_ne = omega arith;
  own = λ a. 0;
  table = record { sized = refl; headers = λ i. null; ends = λ i. null; places = one_key-Place };
}

pub memory-Below : Below memory 52
unfolding memory
memory-Below q le = ground arith

-- A bucket array of empty buckets.
unfoldable pub blank : Heap
blank p = if p == 20 then some (buckets (replicate 2 empty_bucket)) else none

pub blank_at : Holds blank 20 (buckets (replicate 2 empty_bucket))
unfolding blank
blank_at = record { ne_null = omega arith; at = refl }

pub small_map-Reaches : Reaches small_map memory (2 ∷ []) 1 two_buckets
small_map-Reaches = record {
  unlocked = refl;
  recoverable = refl;
  hashes = refl;
  array = buckets_at;
  sized = refl;
  capacity_ne = omega arith;
}
