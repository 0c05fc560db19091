-- ===== src/Wire.antt =====
-- util/wire.h and util/wire.c: numbers in the bytes of a buffer, in both byte orders, and `align`.
-- The functions of wire.c are the macros of wire.h, applied to the buffer.
pub mod Macro
pub mod Order
mod Join
pub mod Reads
pub mod Roundtrip
pub mod Align
pub mod Writes
use neonrt.Base.{ℕ, ◌+◌, ◌-◌, ◌%◌, ◌^◌, Option, some, List}
use neonrt.Base.Checked.{◌>>=◌}
use neonrt.Word.{u16, add_size, ◌bitand◌}
use neonrt.Wire.Macro.{
  neon_read16le, neon_read16be, neon_read32le, neon_read32be, neon_read64le, neon_read64be,
  neon_write16le, neon_write16be, neon_write32le, neon_write32be, neon_write64le, neon_write64be,
}

pub read16le : List ℕ → Option ℕ
unfolding neon_read16le
read16le buffer = do value ← neon_read16le buffer; some (u16 value)

pub read16be : List ℕ → Option ℕ
unfolding neon_read16be
read16be buffer = do value ← neon_read16be buffer; some (u16 value)

pub read32le : List ℕ → Option ℕ
unfolding neon_read32le
read32le buffer = neon_read32le buffer

pub read32be : List ℕ → Option ℕ
unfolding neon_read32be
read32be buffer = neon_read32be buffer

pub read64le : List ℕ → Option ℕ
unfolding neon_read64le
read64le buffer = neon_read64le buffer

pub read64be : List ℕ → Option ℕ
unfolding neon_read64be
read64be buffer = neon_read64be buffer

pub write16le : List ℕ → ℕ → Option (List ℕ)
unfolding neon_write16le
write16le buffer value = do (p, end) ← neon_write16le buffer value; some p

pub write16be : List ℕ → ℕ → Option (List ℕ)
unfolding neon_write16be
write16be buffer value = do (p, end) ← neon_write16be buffer value; some p

pub write32le : List ℕ → ℕ → Option (List ℕ)
unfolding neon_write32le
write32le buffer value = do (p, end) ← neon_write32le buffer value; some p

pub write32be : List ℕ → ℕ → Option (List ℕ)
unfolding neon_write32be
write32be buffer value = do (p, end) ← neon_write32be buffer value; some p

pub write64le : List ℕ → ℕ → Option (List ℕ)
unfolding neon_write64le
write64le buffer value = do (p, end) ← neon_write64le buffer value; some p

pub write64be : List ℕ → ℕ → Option (List ℕ)
unfolding neon_write64be
write64be buffer value = do (p, end) ← neon_write64be buffer value; some p

-- `ALIGN`. The mask `alignment - 1` is an `int`; its complement converts to `size_t` as `2 ^ 64` less
-- the alignment. At alignment 0 the mask is -1 and its complement 0.
pub align : ℕ → ℕ → ℕ
align value alignment =
    add_size value (alignment + 2 ^ 64 - 1) bitand ((2 ^ 64 - alignment) % 2 ^ 64)
