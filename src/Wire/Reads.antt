-- ===== src/Wire/Reads.antt =====
-- The reads of wire.c against `decode`.
use neonrt.Base.{ℕ, ◌%◌, ◌≡◌, refl, arith, List, [], ◌∷◌}
use neonrt.Bits.{mask-bit_and}
use neonrt.Word.{◌bitand◌}
use neonrt.Wire.{read16le, read16be, read32le, read32be, read64le, read64be}
use neonrt.Wire.Join.{or16, or32, or64}
use neonrt.Wire.Order.{decode, little, big}

low_byte : (s : ℕ) → 255 bitand s ≡ s % 256
low_byte s = mask-bit_and 8 s

pub read16le-decode : (buffer : List ℕ) → read16le buffer ≡ decode little 2 buffer
unfolding read16le decode
read16le-decode [] = refl
read16le-decode (s0 ∷ []) = refl
read16le-decode (s0 ∷ s1 ∷ r) = simp low_byte (ground (arith, or16 (s1 % 256) (s0 % 256)))

pub read16be-decode : (buffer : List ℕ) → read16be buffer ≡ decode big 2 buffer
unfolding read16be decode
read16be-decode [] = refl
read16be-decode (s0 ∷ []) = refl
read16be-decode (s0 ∷ s1 ∷ r) = simp low_byte (ground (arith, or16 (s0 % 256) (s1 % 256)))

pub read32le-decode : (buffer : List ℕ) → read32le buffer ≡ decode little 4 buffer
unfolding read32le decode
read32le-decode [] = refl
read32le-decode (s0 ∷ []) = refl
read32le-decode (s0 ∷ s1 ∷ []) = refl
read32le-decode (s0 ∷ s1 ∷ s2 ∷ []) = refl
read32le-decode (s0 ∷ s1 ∷ s2 ∷ s3 ∷ r) =
    simp low_byte (ground (arith, or32 (s3 % 256) (s2 % 256) (s1 % 256) (s0 % 256)))

pub read32be-decode : (buffer : List ℕ) → read32be buffer ≡ decode big 4 buffer
unfolding read32be decode
read32be-decode [] = refl
read32be-decode (s0 ∷ []) = refl
read32be-decode (s0 ∷ s1 ∷ []) = refl
read32be-decode (s0 ∷ s1 ∷ s2 ∷ []) = refl
read32be-decode (s0 ∷ s1 ∷ s2 ∷ s3 ∷ r) =
    simp low_byte (ground (arith, or32 (s0 % 256) (s1 % 256) (s2 % 256) (s3 % 256)))

pub read64le-decode : (buffer : List ℕ) → read64le buffer ≡ decode little 8 buffer
unfolding read64le decode
read64le-decode [] = refl
read64le-decode (s0 ∷ []) = refl
read64le-decode (s0 ∷ s1 ∷ []) = refl
read64le-decode (s0 ∷ s1 ∷ s2 ∷ []) = refl
read64le-decode (s0 ∷ s1 ∷ s2 ∷ s3 ∷ []) = refl
read64le-decode (s0 ∷ s1 ∷ s2 ∷ s3 ∷ s4 ∷ []) = refl
read64le-decode (s0 ∷ s1 ∷ s2 ∷ s3 ∷ s4 ∷ s5 ∷ []) = refl
read64le-decode (s0 ∷ s1 ∷ s2 ∷ s3 ∷ s4 ∷ s5 ∷ s6 ∷ []) = refl
read64le-decode (s0 ∷ s1 ∷ s2 ∷ s3 ∷ s4 ∷ s5 ∷ s6 ∷ s7 ∷ r) = simp low_byte (
    ground (
      arith,
      or64 (s7 % 256) (s6 % 256) (s5 % 256) (s4 % 256) (s3 % 256) (s2 % 256) (s1 % 256) (s0 % 256),
    ))

pub read64be-decode : (buffer : List ℕ) → read64be buffer ≡ decode big 8 buffer
unfolding read64be decode
read64be-decode [] = refl
read64be-decode (s0 ∷ []) = refl
read64be-decode (s0 ∷ s1 ∷ []) = refl
read64be-decode (s0 ∷ s1 ∷ s2 ∷ []) = refl
read64be-decode (s0 ∷ s1 ∷ s2 ∷ s3 ∷ []) = refl
read64be-decode (s0 ∷ s1 ∷ s2 ∷ s3 ∷ s4 ∷ []) = refl
read64be-decode (s0 ∷ s1 ∷ s2 ∷ s3 ∷ s4 ∷ s5 ∷ []) = refl
read64be-decode (s0 ∷ s1 ∷ s2 ∷ s3 ∷ s4 ∷ s5 ∷ s6 ∷ []) = refl
read64be-decode (s0 ∷ s1 ∷ s2 ∷ s3 ∷ s4 ∷ s5 ∷ s6 ∷ s7 ∷ r) = simp low_byte (
    ground (
      arith,
      or64 (s0 % 256) (s1 % 256) (s2 % 256) (s3 % 256) (s4 % 256) (s5 % 256) (s6 % 256) (s7 % 256),
    ))

-- Every read returns the number whose digits to base 256 are the first bytes of the buffer, in the
-- byte order of its name, and is out of bounds exactly when the buffer has fewer bytes.
pub reads-decode :
    (buffer : List ℕ)
    → (read16le buffer ≡ decode little 2 buffer)
      × (read16be buffer ≡ decode big 2 buffer)
      × (read32le buffer ≡ decode little 4 buffer)
      × (read32be buffer ≡ decode big 4 buffer)
      × (read64le buffer ≡ decode little 8 buffer)
      × (read64be buffer ≡ decode big 8 buffer)
reads-decode buffer = (
  read16le-decode buffer,
  read16be-decode buffer,
  read32le-decode buffer,
  read32be-decode buffer,
  read64le-decode buffer,
  read64be-decode buffer,
)
