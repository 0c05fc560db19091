-- ===== src/Tests/WireTests.antt =====
-- Bytes, keys and text.
use neonrt.Base.{ℕ, ◌^◌, ◌≡◌, ◌<◌, refl, true, some, none, List, [], ◌∷◌, arith}
use neonrt.Wire.{read16le, read16be, read32le, read32be, read64le, read64be}
use neonrt.Wire.{write16le, write16be, write32le, write32be, write64le, write64be}
use neonrt.Wire.Order.{decode, encode, little, big}
use neonrt.Wire.Reads.{reads-decode}
use neonrt.Wire.Writes.{writes-encode}
use neonrt.Wire.Roundtrip.{Trip, read-write}
use neonrt.SipWrapper.{wrap_siphash}
use neonrt.SipWrapper.Laws.{wrap_siphash_total}
use neonrt.Buffer.{validate_utf8}
use neonrt.Buffer.Utf8.{IsUtf8, end, code_point, validate_utf8_valid, validate_utf8_diverges}
use neonrt.Tests.Fixtures.{zeros, ascii}

abbrev digits : List ℕ
digits = 1 ∷ 2 ∷ 3 ∷ 4 ∷ 5 ∷ []

reads-decode_example :
    (read16le digits ≡ decode little 2 digits)
    × (read16be digits ≡ decode big 2 digits)
    × (read32le digits ≡ decode little 4 digits)
    × (read32be digits ≡ decode big 4 digits)
    × (read64le digits ≡ decode little 8 digits)
    × (read64be digits ≡ decode big 8 digits)
reads-decode_example = reads-decode digits

writes-encode_example :
    (write16le digits 999 ≡ encode little 2 digits 999)
    × (write16be digits 999 ≡ encode big 2 digits 999)
    × (write32le digits 999 ≡ encode little 4 digits 999)
    × (write32be digits 999 ≡ encode big 4 digits 999)
    × (write64le digits 999 ≡ encode little 8 digits 999)
    × (write64be digits 999 ≡ encode big 8 digits 999)
writes-encode_example = writes-encode digits 999

read-write_example :
    Trip 2 digits (write16le digits 70000) read16le 4464
    × Trip 2 digits (write16be digits 70000) read16be 4464
    × Trip 4 digits (write32le digits 70000) read32le 70000
    × Trip 4 digits (write32be digits 70000) read32be 70000
    × Trip 8 digits (write64le digits 70000) read64le 70000
    × Trip 8 digits (write64be digits 70000) read64be 70000
read-write_example = read-write digits 70000

wrap_siphash_total_example :
    (hash : ℕ) × (wrap_siphash zeros digits 7 ≡ some hash) × (hash < 2 ^ 64)
wrap_siphash_total_example = wrap_siphash_total zeros digits 7

abbrev hi : List ℕ
hi = 104 ∷ 105 ∷ []

hi-IsUtf8 : IsUtf8 ascii hi 2 0
hi-IsUtf8 =
    code_point (omega arith) (omega arith) (omega arith)
      (code_point (omega arith) (omega arith) (omega arith) end)

validate_utf8_valid_example : validate_utf8 ascii 3 hi 2 ≡ some true
validate_utf8_valid_example = validate_utf8_valid ascii hi 2 (omega arith) hi-IsUtf8

validate_utf8_diverges_example : validate_utf8 ascii 50 (65 ∷ 66 ∷ 67 ∷ 68 ∷ 255 ∷ []) 5 ≡ none
validate_utf8_diverges_example =
    validate_utf8_diverges ascii (65 ∷ 66 ∷ 67 ∷ 68 ∷ 255 ∷ []) 5 50 (omega arith) refl refl refl
      refl refl
