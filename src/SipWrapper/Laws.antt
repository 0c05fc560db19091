-- ===== src/SipWrapper/Laws.antt =====
-- The keys that `wrap_siphash` makes of seeds, and its hashes.
use native.Mathlib.Nat.{mod-eq_of_lt, pow-suc}
use mathlib.Core.Option.{get_or}
use mathlib.Core.List.{reverse}
use neonrt.Wire.Roundtrip.{le_value-le_bytes, map-reverse_aux, length-reverse_aux}
use neonrt.Base.{
  ℕ, ◌≡◌, ◌<◌, ◌^◌, some, List, [], ◌∷◌, ◌++◌, length, take, drop, map, length-take, arith, ◌∙◌, ap,
  sym,
}
use neonrt.Word.{u8, u32, ◌bitxor◌, ◌<<<◌}
use neonrt.Wire.Order.{encode, decode, big, le_bytes, le_value, in_order}
use neonrt.Wire.Reads.{read32be-decode, read64be-decode}
use neonrt.Wire.Writes.{write32be-encode, write64be-encode, write64le-encode}
use neonrt.SipWrapper.{SipHash, sip_key, wrap_siphash}

-- The upper half of the seed, as `read32be` sees it.
abbrev pub upper_half : ℕ → ℕ
upper_half seed = le_value (in_order big (map u8 (take 4 (in_order big (le_bytes 8 seed)))))

-- Four mixed bytes, then the lower half of the seed from its high byte down, then the seed from its
-- low byte up.
abbrev pub key_bytes : ℕ → List ℕ
key_bytes seed =
    in_order big (le_bytes 4 (upper_half seed bitxor u32 (upper_half seed <<< 8)))
    ++ (drop 4 (in_order big (le_bytes 8 seed)) ++ le_bytes 8 seed)

sip_key_lem : (seed : ℕ) → sip_key seed ≡ some (key_bytes seed)
unfolding sip_key encode decode
sip_key_lem seed = simp (write64be-encode, write64le-encode, read32be-decode, write32be-encode)

-- Seeds of 64 bits that lead to one SipHash key are equal.
pub sip_key-injective : (s t : ℕ) → s < 2 ^ 64 → t < 2 ^ 64 → sip_key s ≡ sip_key t → s ≡ t
unfolding le_bytes in_order
sip_key-injective s t hs ht e =
    let keys : some (key_bytes s) ≡ some (key_bytes t) = sym (sip_key_lem s) ∙ e ∙ sip_key_lem t in
    sym (mod-eq_of_lt hs)
    ∙ sym (le_value-le_bytes 8 s)
    ∙ ap (λ k. le_value (drop 8 (get_or k []))) keys
    ∙ le_value-le_bytes 8 t
    ∙ mod-eq_of_lt ht

le_value-lt : (bs : List ℕ) → le_value (map u8 bs) < 256 ^ length bs
unfolding le_value
le_value-lt [] = omega arith
le_value-lt (b ∷ bs) = omega (arith, le_value-lt bs, pow-suc 256 (length bs))

-- A hash is the output of SipHash from its high byte down.
pub wrap_siphash-decode :
    (sip : SipHash) (input : List ℕ) (seed : ℕ)
    → wrap_siphash sip input seed ≡ decode big 8 (sip.siphash input (key_bytes seed))
unfolding wrap_siphash
wrap_siphash-decode sip input seed = rw (sip_key_lem seed, read64be-decode)

-- For any data and seed, `wrap_siphash` stays within its arrays and returns a number of 64 bits.
pub wrap_siphash_total :
    (sip : SipHash) (input : List ℕ) (seed : ℕ)
    → (hash : ℕ) × (wrap_siphash sip input seed ≡ some hash) × (hash < 2 ^ 64)
unfolding wrap_siphash decode
wrap_siphash_total sip input seed =
    let out = sip.siphash input (key_bytes seed) in
    let size : length out ≡ 8 = sip.length-siphash input (key_bytes seed) in
    (
      le_value (reverse (map u8 (take 8 out))),
      rw (sip_key_lem seed, read64be-decode, size),
      rw (← map-reverse_aux (take 8 out) []) (
          let bound = le_value-lt (reverse (take 8 out)) in
          rw (length-reverse_aux (take 8 out) [], length-take, size) at bound),
    )
