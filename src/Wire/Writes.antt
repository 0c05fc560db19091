-- ===== src/Wire/Writes.antt =====
-- The writes of wire.c against `encode`.
use neonrt.Base.{ℕ, ◌*◌, ◌/◌, ◌%◌, ◌^◌, ◌≡◌, refl, ap, ◌∙◌, arith, List, [], ◌∷◌}
use neonrt.Bits.{mask-bit_and, shifted-bit_and}
use neonrt.Word.{◌bitand◌, ◌>>>◌}
use neonrt.Wire.{write16le, write16be, write32le, write32be, write64le, write64be}
use neonrt.Wire.Order.{encode, little, big}
use native.Mathlib.Nat.{mul-div_cancel, one-le-pow}

-- The mask of one byte and the shift down take that byte.
byte_of : (k v : ℕ) → (255 * 2 ^ k bitand v) >>> k ≡ v / 2 ^ k % 256
byte_of k v =
    ap (λ t. t / 2 ^ k) (shifted-bit_and k 255 v)
    ∙ mul-div_cancel (255 bitand (v / 2 ^ k)) (one-le-pow k 2 (omega arith))
    ∙ mask-bit_and 8 (v / 2 ^ k)

pub write16le-encode : (buffer : List ℕ) (v : ℕ) → write16le buffer v ≡ encode little 2 buffer v
unfolding write16le encode
write16le-encode [] v = refl
write16le-encode (s0 ∷ []) v = refl
write16le-encode (s0 ∷ s1 ∷ r) v = ground (arith, byte_of 0 v, byte_of 8 v)

pub write16be-encode : (buffer : List ℕ) (v : ℕ) → write16be buffer v ≡ encode big 2 buffer v
unfolding write16be encode
write16be-encode [] v = refl
write16be-encode (s0 ∷ []) v = refl
write16be-encode (s0 ∷ s1 ∷ r) v = ground (arith, byte_of 0 v, byte_of 8 v)

pub write32le-encode : (buffer : List ℕ) (v : ℕ) → write32le buffer v ≡ encode little 4 buffer v
unfolding write32le encode
write32le-encode [] v = refl
write32le-encode (s0 ∷ []) v = refl
write32le-encode (s0 ∷ s1 ∷ []) v = refl
write32le-encode (s0 ∷ s1 ∷ s2 ∷ []) v = refl
write32le-encode (s0 ∷ s1 ∷ s2 ∷ s3 ∷ r) v =
    ground (arith, byte_of 0 v, byte_of 8 v, byte_of 16 v, byte_of 24 v)

pub write32be-encode : (buffer : List ℕ) (v : ℕ) → write32be buffer v ≡ encode big 4 buffer v
unfolding write32be encode
write32be-encode [] v = refl
write32be-encode (s0 ∷ []) v = refl
write32be-encode (s0 ∷ s1 ∷ []) v = refl
write32be-encode (s0 ∷ s1 ∷ s2 ∷ []) v = refl
write32be-encode (s0 ∷ s1 ∷ s2 ∷ s3 ∷ r) v =
    ground (arith, byte_of 0 v, byte_of 8 v, byte_of 16 v, byte_of 24 v)

pub write64le-encode : (buffer : List ℕ) (v : ℕ) → write64le buffer v ≡ encode little 8 buffer v
unfolding write64le encode
write64le-encode [] v = refl
write64le-encode (s0 ∷ []) v = refl
write64le-encode (s0 ∷ s1 ∷ []) v = refl
write64le-encode (s0 ∷ s1 ∷ s2 ∷ []) v = refl
write64le-encode (s0 ∷ s1 ∷ s2 ∷ s3 ∷ []) v = refl
write64le-encode (s0 ∷ s1 ∷ s2 ∷ s3 ∷ s4 ∷ []) v = refl
write64le-encode (s0 ∷ s1 ∷ s2 ∷ s3 ∷ s4 ∷ s5 ∷ []) v = refl
write64le-encode (s0 ∷ s1 ∷ s2 ∷ s3 ∷ s4 ∷ s5 ∷ s6 ∷ []) v = refl
write64le-encode (s0 ∷ s1 ∷ s2 ∷ s3 ∷ s4 ∷ s5 ∷ s6 ∷ s7 ∷ r) v = ground (
  arith,
  byte_of 0 v,
  byte_of 8 v,
  byte_of 16 v,
  byte_of 24 v,
  byte_of 32 v,
  byte_of 40 v,
  byte_of 48 v,
  byte_of 56 v,
)

pub write64be-encode : (buffer : List ℕ) (v : ℕ) → write64be buffer v ≡ encode big 8 buffer v
unfolding write64be encode
write64be-encode [] v = refl
write64be-encode (s0 ∷ []) v = refl
write64be-encode (s0 ∷ s1 ∷ []) v = refl
write64be-encode (s0 ∷ s1 ∷ s2 ∷ []) v = refl
write64be-encode (s0 ∷ s1 ∷ s2 ∷ s3 ∷ []) v = refl
write64be-encode (s0 ∷ s1 ∷ s2 ∷ s3 ∷ s4 ∷ []) v = refl
write64be-encode (s0 ∷ s1 ∷ s2 ∷ s3 ∷ s4 ∷ s5 ∷ []) v = refl
write64be-encode (s0 ∷ s1 ∷ s2 ∷ s3 ∷ s4 ∷ s5 ∷ s6 ∷ []) v = refl
write64be-encode (s0 ∷ s1 ∷ s2 ∷ s3 ∷ s4 ∷ s5 ∷ s6 ∷ s7 ∷ r) v = ground (
  arith,
  byte_of 0 v,
  byte_of 8 v,
  byte_of 16 v,
  byte_of 24 v,
  byte_of 32 v,
  byte_of 40 v,
  byte_of 48 v,
  byte_of 56 v,
)

-- Every write puts the digits to base 256 of its value into the first bytes of the buffer, in the
-- byte order of its name, keeps the other bytes, and is out of bounds exactly when the buffer has
-- fewer bytes.
pub writes-encode :
    (buffer : List ℕ) (v : ℕ)
    → (write16le buffer v ≡ encode little 2 buffer v)
      × (write16be buffer v ≡ encode big 2 buffer v)
      × (write32le buffer v ≡ encode little 4 buffer v)
      × (write32be buffer v ≡ encode big 4 buffer v)
      × (write64le buffer v ≡ encode little 8 buffer v)
      × (write64be buffer v ≡ encode big 8 buffer v)
writes-encode buffer v = (
  write16le-encode buffer v,
  write16be-encode buffer v,
  write32le-encode buffer v,
  write32be-encode buffer v,
  write64le-encode buffer v,
  write64be-encode buffer v,
)
