-- ===== src/Wire/Roundtrip.antt =====
-- A write of wire.c, and the read of the same width and byte order after it.
use mathlib.Core.List.{reverse, reverse-reverse, reverse_aux}
use native.Mathlib.Nat.{
  pow-suc, mod-lt, one-le-pow, div-add-mod, add-mul-mod_self_left, mod-eq_of_lt,
}
use neonrt.Base.{
  ℕ, zero, suc, ◌+◌, ◌*◌, ◌/◌, ◌%◌, ◌^◌, ◌<◌, ◌≤◌, ◌≡◌, refl, ap, ap₂, sym, ◌∙◌, arith,
}
use neonrt.Base.{Option, none, some, List, [], ◌∷◌, ◌++◌, map, leb, length, take, drop}
use neonrt.Base.{length-append, le→leb, Bool-cases, inl, inr}
use neonrt.Word.{u8, u16, u32, u64}
use neonrt.Wire.{read16le, read16be, read32le, read32be, read64le, read64be}
use neonrt.Wire.{write16le, write16be, write32le, write32be, write64le, write64be}
use neonrt.Wire.Order.{Endian, little, big, decode, encode, le_value, le_bytes, in_order}
use neonrt.Wire.Reads.{reads-decode}
use neonrt.Wire.Writes.{writes-encode}

-- The lowest digit, and the others below a place, are the number below the next place.
low_digit-mod : (n v : ℕ) → v % 256 + 256 * (v / 256 % 256 ^ n) ≡ v % 256 ^ suc n
low_digit-mod n v =
    let place = 256 ^ n in
    let x = v % 256 + 256 * (v / 256 % place) in
    let q = v / 256 / place in
    let below : v / 256 % place < place = mod-lt (v / 256) (one-le-pow n 256 (omega arith)) in
    let parts : v ≡ x + 256 * place * q =
      omega (arith, ap (λ (t : ℕ). 256 * t) (div-add-mod (v / 256) place)) in
    sym (
      ap (λ t. v % t) (omega (arith, pow-suc 256 n))
      ∙ ap (λ t. t % (256 * place)) parts
      ∙ add-mul-mod_self_left x (256 * place) q
      ∙ mod-eq_of_lt (omega arith))

pub le_value-le_bytes : (n v : ℕ) → le_value (le_bytes n v) ≡ v % 256 ^ n
unfolding le_value le_bytes
le_value-le_bytes zero v = omega arith
le_value-le_bytes (suc n) v =
    ap (λ t. v % 256 + 256 * t) (le_value-le_bytes n (v / 256)) ∙ low_digit-mod n v

-- Casting bytes to bytes changes nothing.
u8-le_bytes : (n v : ℕ) → map u8 (le_bytes n v) ≡ le_bytes n v
unfolding le_bytes
u8-le_bytes zero v = refl
u8-le_bytes (suc n) v = ap₂ ◌∷◌ (omega arith) (u8-le_bytes n (v / 256))

pub map-reverse_aux :
    (xs ys : List ℕ) → map u8 (reverse_aux xs ys) ≡ reverse_aux (map u8 xs) (map u8 ys)
map-reverse_aux [] ys = refl
map-reverse_aux (x ∷ xs) ys = map-reverse_aux xs (x ∷ ys)

length-le_bytes : (n v : ℕ) → length (le_bytes n v) ≡ n
unfolding le_bytes
length-le_bytes zero v = refl
length-le_bytes (suc n) v = ap suc (length-le_bytes n (v / 256))

pub length-reverse_aux : (xs ys : List ℕ) → length (reverse_aux xs ys) ≡ length xs + length ys
length-reverse_aux [] ys = omega arith
length-reverse_aux (x ∷ xs) ys = omega (arith, length-reverse_aux xs (x ∷ ys))

length-in_order : (e : Endian) (xs : List ℕ) → length (in_order e xs) ≡ length xs
unfolding in_order
length-in_order little xs = refl
length-in_order big xs = omega (arith, length-reverse_aux xs [])

take-append : (n : ℕ) (xs ys : List ℕ) → length xs ≡ n → take n (xs ++ ys) ≡ xs
take-append zero [] ys e = refl
take-append zero (x ∷ xs) ys e = absurd (omega arith)
take-append (suc n) [] ys e = absurd (omega arith)
take-append (suc n) (x ∷ xs) ys e = ap (λ t. x ∷ t) (take-append n xs ys (omega arith))

in_order-u8 : (e : Endian) (xs : List ℕ) → in_order e (map u8 (in_order e xs)) ≡ map u8 xs
unfolding in_order
in_order-u8 little xs = refl
in_order-u8 big xs = ap reverse (map-reverse_aux xs []) ∙ reverse-reverse (map u8 xs)

-- What a write of `n` bytes to a buffer and the read after it come to: both are out of bounds, or the
-- buffer written has its length and its bytes after the first `n`, and the value is read from it.
pub data Trip (n : ℕ) (buffer : List ℕ) (w : Option (List ℕ)) (r : List ℕ → Option ℕ) (value : ℕ)
    : Type 0 where
  out_of_bounds : length buffer < n → w ≡ none → r buffer ≡ none → Trip n buffer w r value
  carried :
      (after : List ℕ)
      → n ≤ length buffer
      → w ≡ some after
      → r after ≡ some value
      → length after ≡ length buffer
      → drop n after ≡ drop n buffer
      → Trip n buffer w r value

drop-append : (n : ℕ) (xs ys : List ℕ) → length xs ≡ n → drop n (xs ++ ys) ≡ ys
drop-append zero [] ys e = refl
drop-append zero (x ∷ xs) ys e = absurd (omega arith)
drop-append (suc n) [] ys e = absurd (omega arith)
drop-append (suc n) (x ∷ xs) ys e = drop-append n xs ys (omega arith)

length-drop : (n : ℕ) (xs : List ℕ) → n ≤ length xs → length (drop n xs) + n ≡ length xs
length-drop zero xs le = omega arith
length-drop (suc n) [] le = absurd (omega arith)
length-drop (suc n) (x ∷ xs) le = omega (arith, length-drop n xs (omega arith))

-- In any width and byte order, decoding after encoding gives the number modulo the width's range.
pub encode-Trip :
    (e : Endian) (n : ℕ) (buffer : List ℕ) (v : ℕ)
    → Trip n buffer (encode e n buffer v) (decode e n) (v % 256 ^ n)
unfolding decode encode
encode-Trip e n buffer v = elim (Bool-cases (leb n (length buffer))) [
  | inr short ↦ out_of_bounds (ground (arith, short)) (rw short refl) (rw short refl)
  | inl fits ↦
      let size : length after ≡ length buffer = omega (
        arith,
        length-append digits (drop n buffer),
        length-digits,
        length-drop n buffer (ground (arith, fits)),
      ) in
      carried after (ground (arith, fits)) (rw fits refl)
        (rw
          (
            le→leb n (length after) (ground (arith, size, fits)),
            take-append n digits (drop n buffer) length-digits,
            in_order-u8,
            u8-le_bytes,
            le_value-le_bytes n v,
          )
          refl)
        size (drop-append n digits (drop n buffer) length-digits)
]
  where
    digits : List ℕ
    digits = in_order e (le_bytes n v)

    length-digits : length digits ≡ n
    length-digits = length-in_order e (le_bytes n v) ∙ length-le_bytes n v

    after : List ℕ
    after = digits ++ drop n buffer

-- A write and a read stand for the functions that they are equal to.
Trip-through :
    {n : ℕ} {buffer : List ℕ} {w w' : Option (List ℕ)} {r r' : List ℕ → Option ℕ} {value : ℕ}
    → w ≡ w'
    → ((b : List ℕ) → r b ≡ r' b)
    → Trip n buffer w' r' value
    → Trip n buffer w r value
Trip-through {buffer = buffer} p q (out_of_bounds short e e') =
    out_of_bounds short (p ∙ e) (q buffer ∙ e')
Trip-through p q (carried after fits e e' size rest) =
    carried after fits (p ∙ e) (q after ∙ e') size rest

-- For every width and byte order: where the buffer has fewer bytes than the width, the write and the
-- read are out of bounds. Otherwise the write keeps the length of the buffer and its bytes after the
-- width, and the read of the same width and byte order returns the value modulo the range of the
-- width from what was written.
pub read-write :
    (buffer : List ℕ) (v : ℕ)
    → Trip 2 buffer (write16le buffer v) read16le (u16 v)
      × Trip 2 buffer (write16be buffer v) read16be (u16 v)
      × Trip 4 buffer (write32le buffer v) read32le (u32 v)
      × Trip 4 buffer (write32be buffer v) read32be (u32 v)
      × Trip 8 buffer (write64le buffer v) read64le (u64 v)
      × Trip 8 buffer (write64be buffer v) read64be (u64 v)
read-write buffer v =
    let (w₀, w₁, w₂, w₃, w₄, w₅) = writes-encode buffer v in
    (
      Trip-through w₀ (λ b. (reads-decode b).0) (encode-Trip little 2 buffer v),
      Trip-through w₁ (λ b. (reads-decode b).1) (encode-Trip big 2 buffer v),
      Trip-through w₂ (λ b. (reads-decode b).2) (encode-Trip little 4 buffer v),
      Trip-through w₃ (λ b. (reads-decode b).3) (encode-Trip big 4 buffer v),
      Trip-through w₄ (λ b. (reads-decode b).4) (encode-Trip little 8 buffer v),
      Trip-through w₅ (λ b. (reads-decode b).5) (encode-Trip big 8 buffer v),
    )
