-- ===== src/Tests/RingTests.antt =====
-- A ring of 4 bytes whose bytes go round the end of the array.
use neonrt.Base.{ℕ, ◌⊎◌, ◌+◌, ◌%◌, ◌≡◌, ◌<◌, refl, true, some, List, [], ◌∷◌, arith, min}
use neonrt.Word.{sub_size}
use neonrt.RingBuffer.{RingBuffer, rb_write, rb_read}
use neonrt.Memory.{Ptr, null, Heap, ok}
use neonrt.RingBuffer.Queue.{Op, put, get, serve}
use neonrt.RingBuffer.Run.{Serves, run_refines}
use neonrt.RingBuffer.Store.{rb_new, MadeRing, rb_new_lem}
use neonrt.Tests.Fixtures.{memory, first_fit}
use neonrt.RingBuffer.Window.{IsValid, contents, window}
use neonrt.RingBuffer.Write.{rb_write_lem}
use neonrt.RingBuffer.Read.{rb_read_lem, counted, pending, splice}
use neonrt.RingBuffer.Fifo.{rb_read_drain, rb_read_underflow}

abbrev ring : RingBuffer
ring = record { buffer = 9 ∷ 0 ∷ 7 ∷ 8 ∷ []; capacity = 4; size = 3; head = 2; tail = 1 }

ring-IsValid : IsValid ring
ring-IsValid = record {
  storage = omega arith;
  bounded = omega arith;
  head_in = omega arith;
  size_in = omega arith;
  tail_at = refl;
}

contents-ring : contents ring ≡ 7 ∷ 8 ∷ 9 ∷ []
contents-ring = refl

abbrev target : List ℕ
target = 0 ∷ 0 ∷ 0 ∷ 0 ∷ 0 ∷ []

rb_write_lem_example :
    (r' : RingBuffer) × (rb_write ring (5 ∷ []) 1 ≡ some (true, r'))
    × (contents r' ≡ 7 ∷ 8 ∷ 9 ∷ 5 ∷ [])
    × IsValid r'
    × (r'.capacity ≡ 4)
rb_write_lem_example = rb_write_lem ring (5 ∷ []) 1 ring-IsValid (omega arith)

rb_read_lem_example :
    rb_read ring target 5
    ≡ some (
      counted 5 (pending ring),
      splice target 0 (window ring.buffer 4 2 (min 5 (pending ring))),
      record ring { head = (2 + min 5 (pending ring)) % 4; size = sub_size 3 5 },
    )
rb_read_lem_example = rb_read_lem ring target 5 ring-IsValid (omega arith)

rb_read_drain_example :
    (r' : RingBuffer) × (rb_read ring target 3 ≡ some (2, 7 ∷ 8 ∷ 9 ∷ 0 ∷ 0 ∷ [], r'))
    × (r'.size ≡ 0)
    × (r'.head ≡ 1)
rb_read_drain_example =
    rb_read_drain ring target 3 ring-IsValid (omega arith) (omega arith) (omega arith)

rb_read_underflow_example :
    (n : ℕ) × (out : List ℕ) × (r' : RingBuffer) × (rb_read ring target 5 ≡ some (n, out, r'))
    × (r'.capacity < r'.size)
    × (¬ IsValid r')
rb_read_underflow_example =
    rb_read_underflow ring target 5 ring-IsValid (omega arith) (omega arith) (omega arith)

-- A write that fits, one that does not, and a read.
abbrev calls : List Op
calls = put (5 ∷ []) ∷ put (6 ∷ []) ∷ get 2 target ∷ []

run_refines_example :
    Serves ring calls (serve 4 (7 ∷ 8 ∷ 9 ∷ []) calls).0 (serve 4 (7 ∷ 8 ∷ 9 ∷ []) calls).1
run_refines_example = run_refines calls ring ring-IsValid (omega arith, omega arith, tt)

rb_new_lem_example :
    (self : Ptr) × (h' : Heap) × (rb_new first_fit 16 memory ≡ ok self h')
    × (((self ≡ null) × ((q : Ptr) → h' q ≡ memory q)) ⊎ MadeRing memory h' self 16)
rb_new_lem_example = rb_new_lem first_fit 16 memory
