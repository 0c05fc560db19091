-- ===== src/Wire/Macro.antt =====
-- util/wire.h: the macros that read and write numbers in the bytes of a buffer.
-- A buffer is the list of the bytes from the pointer to the end of the object that it points into.
-- `none` is an access past that end, which C leaves undefined. A write gives the bytes and the offset
-- of the pointer that is the value of the macro.
use neonrt.Base.{ℕ, Option, some, List, get_elem?}
use neonrt.Base.Checked.{◌>>=◌, put}
use neonrt.Word.{u8, u32, u64, ◌bitand◌, ◌bitor◌, ◌<<<◌, ◌>>>◌}

unfoldable pub neon_read16le : List ℕ → Option ℕ
neon_read16le buffer = do
  s0 ← get_elem? buffer 0
  s1 ← get_elem? buffer 1
  some ((255 bitand s1) <<< 8 bitor (255 bitand s0))

unfoldable pub neon_read16be : List ℕ → Option ℕ
neon_read16be buffer = do
  s0 ← get_elem? buffer 0
  s1 ← get_elem? buffer 1
  some ((255 bitand s0) <<< 8 bitor (255 bitand s1))

unfoldable pub neon_read32le : List ℕ → Option ℕ
neon_read32le buffer = do
  s0 ← get_elem? buffer 0
  s1 ← get_elem? buffer 1
  s2 ← get_elem? buffer 2
  s3 ← get_elem? buffer 3
  some (
      u32 ((255 bitand s3) <<< 24)
      bitor u32 ((255 bitand s2) <<< 16)
      bitor u32 ((255 bitand s1) <<< 8)
      bitor u32 ((255 bitand s0) <<< 0))

unfoldable pub neon_read32be : List ℕ → Option ℕ
neon_read32be buffer = do
  s0 ← get_elem? buffer 0
  s1 ← get_elem? buffer 1
  s2 ← get_elem? buffer 2
  s3 ← get_elem? buffer 3
  some (
      u32 ((255 bitand s0) <<< 24)
      bitor u32 ((255 bitand s1) <<< 16)
      bitor u32 ((255 bitand s2) <<< 8)
      bitor u32 ((255 bitand s3) <<< 0))

unfoldable pub neon_read64le : List ℕ → Option ℕ
neon_read64le buffer = do
  s0 ← get_elem? buffer 0
  s1 ← get_elem? buffer 1
  s2 ← get_elem? buffer 2
  s3 ← get_elem? buffer 3
  s4 ← get_elem? buffer 4
  s5 ← get_elem? buffer 5
  s6 ← get_elem? buffer 6
  s7 ← get_elem? buffer 7
  some (
      u64 ((255 bitand s7) <<< 56)
      bitor u64 ((255 bitand s6) <<< 48)
      bitor u64 ((255 bitand s5) <<< 40)
      bitor u64 ((255 bitand s4) <<< 32)
      bitor u64 ((255 bitand s3) <<< 24)
      bitor u64 ((255 bitand s2) <<< 16)
      bitor u64 ((255 bitand s1) <<< 8)
      bitor u64 ((255 bitand s0) <<< 0))

unfoldable pub neon_read64be : List ℕ → Option ℕ
neon_read64be buffer = do
  s0 ← get_elem? buffer 0
  s1 ← get_elem? buffer 1
  s2 ← get_elem? buffer 2
  s3 ← get_elem? buffer 3
  s4 ← get_elem? buffer 4
  s5 ← get_elem? buffer 5
  s6 ← get_elem? buffer 6
  s7 ← get_elem? buffer 7
  some (
      u64 ((255 bitand s0) <<< 56)
      bitor u64 ((255 bitand s1) <<< 48)
      bitor u64 ((255 bitand s2) <<< 40)
      bitor u64 ((255 bitand s3) <<< 32)
      bitor u64 ((255 bitand s4) <<< 24)
      bitor u64 ((255 bitand s5) <<< 16)
      bitor u64 ((255 bitand s6) <<< 8)
      bitor u64 ((255 bitand s7) <<< 0))

unfoldable pub neon_write16le : List ℕ → ℕ → Option (List ℕ × ℕ)
neon_write16le buffer value = do
  p0 ← put buffer 0 (u8 ((0xff bitand value) >>> 0))
  p1 ← put p0 1 (u8 ((0xff00 bitand value) >>> 8))
  some (p1, 2)

unfoldable pub neon_write16be : List ℕ → ℕ → Option (List ℕ × ℕ)
neon_write16be buffer value = do
  p0 ← put buffer 0 (u8 ((0xff00 bitand value) >>> 8))
  p1 ← put p0 1 (u8 ((0xff bitand value) >>> 0))
  some (p1, 2)

unfoldable pub neon_write32le : List ℕ → ℕ → Option (List ℕ × ℕ)
neon_write32le buffer value = do
  p0 ← put buffer 0 (u8 ((0xff bitand value) >>> 0))
  p1 ← put p0 1 (u8 ((0xff00 bitand value) >>> 8))
  p2 ← put p1 2 (u8 ((0xff0000 bitand value) >>> 16))
  p3 ← put p2 3 (u8 ((0xff000000 bitand value) >>> 24))
  some (p3, 4)

unfoldable pub neon_write32be : List ℕ → ℕ → Option (List ℕ × ℕ)
neon_write32be buffer value = do
  p0 ← put buffer 0 (u8 ((0xff000000 bitand value) >>> 24))
  p1 ← put p0 1 (u8 ((0xff0000 bitand value) >>> 16))
  p2 ← put p1 2 (u8 ((0xff00 bitand value) >>> 8))
  p3 ← put p2 3 (u8 ((0xff bitand value) >>> 0))
  some (p3, 4)

unfoldable pub neon_write64le : List ℕ → ℕ → Option (List ℕ × ℕ)
neon_write64le buffer value = do
  p0 ← put buffer 0 (u8 ((0xff bitand value) >>> 0))
  p1 ← put p0 1 (u8 ((0xff00 bitand value) >>> 8))
  p2 ← put p1 2 (u8 ((0xff0000 bitand value) >>> 16))
  p3 ← put p2 3 (u8 ((0xff000000 bitand value) >>> 24))
  p4 ← put p3 4 (u8 ((0xff00000000 bitand value) >>> 32))
  p5 ← put p4 5 (u8 ((0xff0000000000 bitand value) >>> 40))
  p6 ← put p5 6 (u8 ((0xff000000000000 bitand value) >>> 48))
  p7 ← put p6 7 (u8 ((0xff00000000000000 bitand value) >>> 56))
  some (p7, 8)

unfoldable pub neon_write64be : List ℕ → ℕ → Option (List ℕ × ℕ)
neon_write64be buffer value = do
  p0 ← put buffer 0 (u8 ((0xff00000000000000 bitand value) >>> 56))
  p1 ← put p0 1 (u8 ((0xff000000000000 bitand value) >>> 48))
  p2 ← put p1 2 (u8 ((0xff0000000000 bitand value) >>> 40))
  p3 ← put p2 3 (u8 ((0xff00000000 bitand value) >>> 32))
  p4 ← put p3 4 (u8 ((0xff000000 bitand value) >>> 24))
  p5 ← put p4 5 (u8 ((0xff0000 bitand value) >>> 16))
  p6 ← put p5 6 (u8 ((0xff00 bitand value) >>> 8))
  p7 ← put p6 7 (u8 ((0xff bitand value) >>> 0))
  some (p7, 8)
