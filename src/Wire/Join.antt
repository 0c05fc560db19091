-- ===== src/Wire/Join.antt =====
-- The `|` of bytes at their places in a word.
use neonrt.Base.{ℕ, ◌+◌, ◌*◌, ◌^◌, ◌<◌, ◌≡◌, arith}
use neonrt.Bits.{bit_or_fields}
use neonrt.Word.{u32, u64, ◌bitor◌, ◌<<<◌}

join : (k q r : ℕ) {a : ℕ} → a ≡ q * 2 ^ k → r < 2 ^ k → a bitor r ≡ a + r
join k q r e fits = rw e (bit_or_fields k q r fits)

pub or16 : (b1 b0 : ℕ) → b1 < 256 → b0 < 256 → (b1 <<< 8 bitor b0) ≡ b0 + 256 * (b1 + 256 * 0)
or16 b1 b0 h1 h0 =
    let e1 = join 8 (b1) (b0) {a = b1 <<< 8} (omega (arith)) (omega arith) in omega (arith, e1)

pub or32 :
    (b3 b2 b1 b0 : ℕ)
    → b3 < 256
    → b2 < 256
    → b1 < 256
    → b0 < 256
    → (u32 (b3 <<< 24) bitor u32 (b2 <<< 16) bitor u32 (b1 <<< 8) bitor u32 (b0 <<< 0))
      ≡ b0 + 256 * (b1 + 256 * (b2 + 256 * (b3 + 256 * 0)))
or32 b3 b2 b1 b0 h3 h2 h1 h0 =
    let e1 = join 24 (b3) (u32 (b2 <<< 16)) {a = u32 (b3 <<< 24)} (omega (arith)) (omega arith) in
    let e2 =
      join 16 (b3 * 256 + b2) (u32 (b1 <<< 8)) {a = u32 (b3 <<< 24) bitor u32 (b2 <<< 16)}
        (omega (arith, e1)) (omega arith) in
    let e3 =
      join 8 ((b3 * 256 + b2) * 256 + b1) (u32 (b0 <<< 0))
        {a = (u32 (b3 <<< 24) bitor u32 (b2 <<< 16)) bitor u32 (b1 <<< 8)} (omega (arith, e1, e2))
        (omega arith) in
    omega (arith, e1, e2, e3)

pub or64 :
    (b7 b6 b5 b4 b3 b2 b1 b0 : ℕ)
    → b7 < 256
    → b6 < 256
    → b5 < 256
    → b4 < 256
    → b3 < 256
    → b2 < 256
    → b1 < 256
    → b0 < 256
    → (u64 (b7 <<< 56)
        bitor u64 (b6 <<< 48)
        bitor u64 (b5 <<< 40)
        bitor u64 (b4 <<< 32)
        bitor u64 (b3 <<< 24)
        bitor u64 (b2 <<< 16)
        bitor u64 (b1 <<< 8)
        bitor u64 (b0 <<< 0))
      ≡ b0
        + 256
          * (b1
              + 256
                * (b2 + 256 * (b3 + 256 * (b4 + 256 * (b5 + 256 * (b6 + 256 * (b7 + 256 * 0)))))))
or64 b7 b6 b5 b4 b3 b2 b1 b0 h7 h6 h5 h4 h3 h2 h1 h0 =
    let e1 = join 56 (b7) (u64 (b6 <<< 48)) {a = u64 (b7 <<< 56)} (omega (arith)) (omega arith) in
    let e2 =
      join 48 (b7 * 256 + b6) (u64 (b5 <<< 40)) {a = u64 (b7 <<< 56) bitor u64 (b6 <<< 48)}
        (omega (arith, e1)) (omega arith) in
    let e3 =
      join 40 ((b7 * 256 + b6) * 256 + b5) (u64 (b4 <<< 32))
        {a = (u64 (b7 <<< 56) bitor u64 (b6 <<< 48)) bitor u64 (b5 <<< 40)} (omega (arith, e1, e2))
        (omega arith) in
    let e4 =
      join 32 (((b7 * 256 + b6) * 256 + b5) * 256 + b4) (u64 (b3 <<< 24))
        {a = ((u64 (b7 <<< 56) bitor u64 (b6 <<< 48)) bitor u64 (b5 <<< 40)) bitor u64 (b4 <<< 32)}
        (omega (arith, e1, e2, e3)) (omega arith) in
    let e5 =
      join 24 ((((b7 * 256 + b6) * 256 + b5) * 256 + b4) * 256 + b3) (u64 (b2 <<< 16))
        {a = (((u64 (b7 <<< 56) bitor u64 (b6 <<< 48)) bitor u64 (b5 <<< 40)) bitor u64 (b4 <<< 32))
          bitor u64 (b3 <<< 24)}
        (omega (arith, e1, e2, e3, e4)) (omega arith) in
    let e6 =
      join 16 (((((b7 * 256 + b6) * 256 + b5) * 256 + b4) * 256 + b3) * 256 + b2) (u64 (b1 <<< 8))
        {a = ((((u64 (b7 <<< 56) bitor u64 (b6 <<< 48)) bitor u64 (b5 <<< 40))
              bitor u64 (b4 <<< 32))
            bitor u64 (b3 <<< 24))
          bitor u64 (b2 <<< 16)}
        (omega (arith, e1, e2, e3, e4, e5)) (omega arith) in
    let e7 =
      join 8 ((((((b7 * 256 + b6) * 256 + b5) * 256 + b4) * 256 + b3) * 256 + b2) * 256 + b1)
        (u64 (b0 <<< 0))
        {a = (((((u64 (b7 <<< 56) bitor u64 (b6 <<< 48)) bitor u64 (b5 <<< 40))
                bitor u64 (b4 <<< 32))
              bitor u64 (b3 <<< 24))
            bitor u64 (b2 <<< 16))
          bitor u64 (b1 <<< 8)}
        (omega (arith, e1, e2, e3, e4, e5, e6)) (omega arith) in
    omega (arith, e1, e2, e3, e4, e5, e6, e7)
