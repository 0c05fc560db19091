-- ===== src/RingBuffer/Fifo.antt =====
-- `rb_read` on a ring that holds more bytes than are asked for, and on one that does not.
use native.Mathlib.Nat.{add-zero, mod-eq_of_lt, mod-add-mod}
use neonrt.Base.{
  ℕ, zero, suc, ◌+◌, ◌-◌, ◌%◌, ◌^◌, ◌≤◌, ◌<◌, ◌≡◌, refl, ap, ap₂, sym, ◌∙◌, arith, min,
}
use neonrt.Base.{some, List, [], ◌∷◌, ◌++◌, length, get_or, set, take, drop, true}
use neonrt.Base.{length-append, length-take, leb}
use neonrt.Word.{sub_size}
use neonrt.RingBuffer.{RingBuffer, rb_write, rb_read}
use neonrt.RingBuffer.Window.{window, contents, IsValid, length-window, step_add}
use neonrt.RingBuffer.Write.{rb_write_lem}
use neonrt.RingBuffer.Read.{splice, counted, pending, rb_read_lem}

splice-suc : (x : ℕ) (dst bs : List ℕ) (i : ℕ) → splice (x ∷ dst) (suc i) bs ≡ x ∷ splice dst i bs
splice-suc x dst [] i = refl
splice-suc x dst (b ∷ bs) i =
    ap (λ k. splice (x ∷ set dst i b) k bs) {y = suc (i + 1)} (omega arith)
    ∙ splice-suc x (set dst i b) bs (i + 1)

-- Bytes stored from the start replace as many.
splice-zero :
    (dst bs : List ℕ) → length bs ≤ length dst → splice dst 0 bs ≡ bs ++ drop (length bs) dst
splice-zero dst [] h = refl
splice-zero [] (b ∷ bs) h = absurd (omega arith)
splice-zero (x ∷ dst) (b ∷ bs) h =
    ap (λ k. splice (b ∷ dst) k bs) {x = 0 + 1} {y = 1} (omega arith)
    ∙ splice-suc b dst bs 0
    ∙ ap (λ t. b ∷ t) (splice-zero dst bs (omega arith))

-- The first bytes of a window, and the others.
take-window :
    (buffer : List ℕ) (capacity h m n : ℕ)
    → m ≤ n
    → take m (window buffer capacity h n) ≡ window buffer capacity h m
take-window buffer capacity h zero n le = refl
take-window buffer capacity h (suc m) zero le = absurd (omega arith)
take-window buffer capacity h (suc m) (suc n) le =
    ap (λ t. get_or buffer h 0 ∷ t)
      (take-window buffer capacity ((h + 1) % capacity) m n (omega arith))

drop-window :
    (buffer : List ℕ) (capacity h m n : ℕ)
    → h < capacity
    → m ≤ n
    → drop m (window buffer capacity h n) ≡ window buffer capacity ((h + m) % capacity) (n - m)
drop-window buffer capacity h zero n hh le =
    ap₂ (window buffer capacity) (sym (ap (λ t. t % capacity) (add-zero h) ∙ mod-eq_of_lt hh))
      (omega arith)
drop-window buffer capacity h (suc m) zero hh le = absurd (omega arith)
drop-window buffer capacity h (suc m) (suc n) hh le =
    drop-window buffer capacity ((h + 1) % capacity) m n (omega arith) (omega arith)
    ∙ ap₂ (window buffer capacity) (step_add h m capacity) (omega arith)

-- Where fewer bytes are asked for than a valid ring holds, `rb_read` returns their number, stores the
-- oldest bytes in order at the start of the destination and leaves its rest alone, and the ring holds
-- exactly the other bytes and stays valid.
pub rb_read-fifo :
    (r : RingBuffer) (dst : List ℕ) (len : ℕ)
    → IsValid r
    → len ≤ length dst
    → len < r.size
    → (r' : RingBuffer) × (rb_read r dst len
        ≡ some (len, take len (contents r) ++ drop len dst, r'))
      × (contents r' ≡ drop len (contents r))
      × IsValid r'
      × (r'.capacity ≡ r.capacity)
rb_read-fifo r dst len v enough fewer =
    let all_held : pending r ≡ r.size = ground arith in
    let copied : min len r.size ≡ len = omega arith in
    let reported : counted len r.size ≡ len = ground arith in
    let left : sub_size r.size len ≡ r.size - len = omega arith in
    (
      record r { head = (r.head + len) % r.capacity; size = r.size - len },
      rb_read_lem r dst len v enough ∙ rw (all_held, copied, reported, left, first_bytes) refl,
      sym (drop-window r.buffer r.capacity r.head len r.size v.head_in (omega arith)),
      record {
        storage = v.storage;
        bounded = v.bounded;
        head_in = omega (arith, v.head_in);
        size_in = omega arith;
        tail_at =
            v.tail_at
            ∙ ap (λ t. t % r.capacity) {y = r.head + len + (r.size - len)} (omega arith)
            ∙ sym (mod-add-mod (r.head + len) r.capacity (r.size - len));
      },
      refl,
    )
  where
    first_bytes :
        splice dst 0 (window r.buffer r.capacity r.head len) ≡ take len (contents r) ++ drop len dst
    first_bytes =
        splice-zero dst (window r.buffer r.capacity r.head len)
          (omega (arith, length-window r.buffer r.capacity r.head len))
        ∙ ap₂ ◌++◌ (sym (take-window r.buffer r.capacity r.head len r.size (omega arith)))
            (ap (λ k. drop k dst) (length-window r.buffer r.capacity r.head len))

-- Where at least as many bytes are asked for as a valid ring holds, and it holds some, `rb_read`
-- stores all of them at the start of the destination and reports one fewer; the size goes down by the
-- number asked for, modulo `2 ^ 64`.
pub rb_read_drain :
    (r : RingBuffer) (dst : List ℕ) (len : ℕ)
    → IsValid r
    → len ≤ length dst
    → r.size ≤ len
    → 0 < r.size
    → (r' : RingBuffer) × (rb_read r dst len ≡ some (r.size - 1, contents r ++ drop r.size dst, r'))
      × (r'.size ≡ sub_size r.size len)
      × (r'.head ≡ r.tail)
rb_read_drain r dst len v enough all some_held =
    let all_held : pending r ≡ r.size = ground arith in
    let copied : min len r.size ≡ r.size = omega arith in
    let reported : counted len r.size ≡ r.size - 1 = ground arith in
    (
      record r { head = (r.head + r.size) % r.capacity; size = sub_size r.size len },
      rb_read_lem r dst len v enough ∙ rw (all_held, copied, reported, bytes) refl,
      refl,
      sym v.tail_at,
    )
  where
    bytes : splice dst 0 (contents r) ≡ contents r ++ drop r.size dst
    bytes =
        splice-zero dst (contents r)
          (omega (arith, length-window r.buffer r.capacity r.head r.size))
        ∙ ap (λ k. contents r ++ drop k dst) (length-window r.buffer r.capacity r.head r.size)

-- Where more bytes are asked for than a valid ring holds (an empty ring included), and the number asked
-- for and the capacity add up to less than `2 ^ 64`, `rb_read` leaves a ring whose size is above its
-- capacity, and which is no longer valid.
pub rb_read_underflow :
    (r : RingBuffer) (dst : List ℕ) (len : ℕ)
    → IsValid r
    → len ≤ length dst
    → r.size < len
    → len + r.capacity < 2 ^ 64
    → (n : ℕ) × (out : List ℕ) × (r' : RingBuffer) × (rb_read r dst len ≡ some (n, out, r'))
      × (r'.capacity < r'.size)
      × (¬ IsValid r')
rb_read_underflow r dst len v enough over room = (
  counted len (pending r),
  splice dst 0 (window r.buffer r.capacity r.head (min len (pending r))),
  record r { head = (r.head + min len (pending r)) % r.capacity; size = sub_size r.size len },
  rb_read_lem r dst len v enough,
  omega arith,
  λ v'. omega arith,
)

-- What is written into a valid ring with room comes out behind what was there: a write of the first
-- `len` bytes of a source, and then a read of fewer bytes than are held, give the first of the bytes
-- held followed by those of the source.
pub rb_write-rb_read :
    (r : RingBuffer) (src dst : List ℕ) (len count : ℕ)
    → IsValid r
    → len ≤ length src
    → len + r.size ≤ r.capacity
    → count ≤ length dst
    → count < r.size + len
    → (r' r'' : RingBuffer) × (rb_write r src len ≡ some (true, r'))
      × (rb_read r' dst count
          ≡ some (count, take count (contents r ++ take len src) ++ drop count dst, r''))
      × (contents r'' ≡ drop count (contents r ++ take len src))
      × IsValid r''
rb_write-rb_read r src dst len count v enough room space fewer =
    let w = rb_write_lem r src len v enough in
    let fits : leb len (r.capacity - r.size) ≡ true = ground arith in
    let written : contents w.0 ≡ contents r ++ take len src = w.2 ∙ rw fits refl in
    let held : w.0.size ≡ r.size + len =
      sym (length-window w.0.buffer w.0.capacity w.0.head w.0.size)
      ∙ ap length written
      ∙ length-append (contents r) (take len src)
      ∙ omega (arith, length-window r.buffer r.capacity r.head r.size, length-take len src) in
    let out = rb_read-fifo w.0 dst count w.3 space (rw held fewer) in
    (w.0, out.0, w.1 ∙ rw fits refl, out.1 ∙ rw written refl, out.2 ∙ rw written refl, out.3)
