-- ===== src/RingBuffer/Run.antt =====
-- Sequences of calls of `rb_write` and `rb_read`.
use neonrt.Base.{ℕ, ◌-◌, ◌≡◌, refl, sym, ap, ◌∙◌, Option, some, List, [], ◌∷◌, length, leb, arith}
use neonrt.Base.{take-length, ◌++◌, take, drop}
use native.Mathlib.Nat.{le_refl}
use neonrt.Base.Checked.{◌>>=◌}
use neonrt.RingBuffer.{RingBuffer, rb_write, rb_read}
use neonrt.RingBuffer.Window.{contents, IsValid, length-window}
use neonrt.RingBuffer.Write.{rb_write_lem}
use neonrt.RingBuffer.Fifo.{rb_read-fifo}
use neonrt.RingBuffer.Queue.{Op, put, get, Reply, written, fetched, serve, put_bytes, Modest}

-- The replies to the calls, and the ring in the end.
unfoldable pub run : RingBuffer → List Op → Option (List Reply × RingBuffer)
run r [] = some ([], r)
run r (put bytes ∷ ops) = do
  (fits, r') ← rb_write r bytes (length bytes)
  (replies, end) ← run r' ops
  some (written fits ∷ replies, end)
run r (get len dst ∷ ops) = do
  (read, dst', r') ← rb_read r dst len
  (replies, end) ← run r' ops
  some (fetched read dst' ∷ replies, end)

-- A run that accesses nothing out of bounds, replies as the queue does, and leaves a valid ring of the
-- same capacity that holds the queue.
pub record Serves (r : RingBuffer) (ops : List Op) (replies : List Reply) (q : List ℕ)
    : Type 0 where
  pub after : RingBuffer
  pub runs : run r ops ≡ some (replies, after)
  pub holds : contents after ≡ q
  pub valid : IsValid after
  pub capacity : after.capacity ≡ r.capacity

run_from :
    (ops : List Op) (r : RingBuffer) (capacity : ℕ) (q : List ℕ)
    → IsValid r
    → r.capacity ≡ capacity
    → contents r ≡ q
    → Modest capacity q ops
    → Serves r ops (serve capacity q ops).0 (serve capacity q ops).1
unfolding run serve
run_from [] r capacity q v size held modest = record {
  after = r;
  runs = refl;
  holds = held;
  valid = v;
  capacity = refl;
}
run_from (put bytes ∷ ops) r capacity q v size held modest =
    let (r', step, next, v', same) =
      rb_write_lem r bytes (length bytes) v (le_refl (length bytes)) in
    let room : r.capacity - r.size ≡ capacity - length q =
      omega (arith, ap length held, length-window r.buffer r.capacity r.head r.size) in
    let rest =
      run_from ops r' capacity (put_bytes capacity q bytes) v' (same ∙ size)
        (next ∙ rw (room, held, take-length bytes) refl) modest in
    record {
      after = rest.after;
      runs =
          rw (step, rest.runs)
            (ap
              (λ (n : ℕ). some (
                written (leb (length bytes) n)
                    ∷ (serve capacity (put_bytes capacity q bytes) ops).0,
                rest.after,
              ))
              room);
      holds = rest.holds;
      valid = rest.valid;
      capacity = rest.capacity ∙ same;
    }
run_from (get len dst ∷ ops) r capacity q v size held modest =
    let size_q : length q ≡ r.size =
      sym (ap length held) ∙ length-window r.buffer r.capacity r.head r.size in
    let (r', step, next, v', same) = rb_read-fifo r dst len v modest.0 (omega (arith, size_q)) in
    let rest =
      run_from ops r' capacity (drop len q) v' (same ∙ size) (next ∙ ap (drop len) held) modest.2 in
    record {
      after = rest.after;
      runs =
          rw (step, rest.runs)
            (ap
              (λ (c : List ℕ). some (
                fetched len (take len c ++ drop len dst) ∷ (serve capacity (drop len q) ops).0,
                rest.after,
              ))
              held);
      holds = rest.holds;
      valid = rest.valid;
      capacity = rest.capacity ∙ same;
    }

-- No sequence of calls in which each read asks for fewer bytes than are held, and has room for them
-- in its destination, tells a valid ring from the queue of the bytes that it holds, bounded by its
-- capacity.
pub run_refines :
    (ops : List Op) (r : RingBuffer)
    → IsValid r
    → Modest r.capacity (contents r) ops
    → Serves r ops (serve r.capacity (contents r) ops).0 (serve r.capacity (contents r) ops).1
run_refines ops r v modest = run_from ops r r.capacity (contents r) v refl refl modest
