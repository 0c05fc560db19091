-- ===== src/SipWrapper.antt =====
-- util/sip_wrapper.c: the keyed hash of the runtime, SipHash under a key derived from a seed.
-- extra/siphash.c is the SipHash reference implementation and is a parameter.
use neonrt.Base.{ℕ, ◌≡◌, ◌<◌, ◌^◌, Option, some, List, ◌++◌, length, take, drop, replicate, get_or}
use neonrt.Base.Checked.{◌>>=◌}
use neonrt.Word.{u32, ◌bitxor◌, ◌<<<◌}
use neonrt.Wire.{read32be, read64be, write32be, write64be, write64le}
pub mod Laws

-- `siphash(in, inlen, k, out, 8)` as a function of the input and of the 16 bytes of the key: it fills
-- the 8 bytes of `out`.
pub record SipHash : Type 0 where
  pub siphash : List ℕ → List ℕ → List ℕ
  pub length-siphash : (input key : List ℕ) → length (siphash input key) ≡ 8

-- The `key` of `wrap_siphash`, of which `siphash` reads 16 bytes. It is not initialised in C; the
-- writes fill those bytes.
pub sip_key : ℕ → Option (List ℕ)
sip_key seed = do
  key₁ ← write64be (replicate 32 0) seed
  low ← write64le (drop 8 key₁) seed
  let key₂ = take 8 key₁ ++ low
  val ← read32be key₂
  key₃ ← write32be key₂ (val bitxor u32 (val <<< 8))
  some (take 16 key₃)

-- `wrap_siphash`
unfoldable pub wrap_siphash : SipHash → List ℕ → ℕ → Option ℕ
unfolding sip_key
wrap_siphash sip data_bytes seed = do key ← sip_key seed; read64be (sip.siphash data_bytes key)
