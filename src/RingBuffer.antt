-- ===== src/RingBuffer.antt =====
-- ringbuffer/ringbuffer.c: a byte queue in an array with indices modulo its capacity.
-- The array behind `buffer` is the list of its bytes. A source or a destination of `len` bytes is the
-- list of the bytes from its pointer on; `none` is an access outside an array. `rb_new`
-- and `rb_free`, which work on memory, are in RingBuffer/Store.
pub mod Window
pub mod Write
pub mod Read
pub mod Fifo
pub mod Queue
pub mod Run
pub mod Store
use neonrt.Base.{ℕ, zero, suc, ◌+◌, ◌%◌, Bool, true, false, Option, none, some, List}
use neonrt.Base.{get_elem?, ltb, ◌==◌, if◌then◌else◌}
use neonrt.Base.Checked.{◌>>=◌, put}
use neonrt.Word.{add_size, sub_size}

pub record RingBuffer : Type 0 where
  pub buffer : List ℕ
  pub capacity : ℕ
  pub size : ℕ
  pub head : ℕ
  pub tail : ℕ

-- The loop of `rb_write` at index `i`, with `len - i` rounds left: the array and `tail` at its end.
pub write_loop : ℕ → List ℕ → ℕ → ℕ → List ℕ → ℕ → Option (List ℕ × ℕ)
write_loop capacity src zero i buffer tail = some (buffer, tail)
write_loop capacity src (suc left) i buffer tail = do
  b ← get_elem? src i
  buffer' ← put buffer tail b
  write_loop capacity src left (i + 1) buffer' (add_size tail 1 % capacity)

pub rb_write : RingBuffer → List ℕ → ℕ → Option (Bool × RingBuffer)
unfolding write_loop
rb_write self src len =
    if ltb (sub_size self.capacity self.size) len then some (false, self) else do
      (buffer, tail) ← write_loop self.capacity src len 0 self.buffer self.tail
      some (true, record self { buffer = buffer; tail = tail; size = add_size self.size len })

-- The loop of `rb_read`: the destination, `head` and `read` at its end. The `break` stands before
-- `read++`.
pub read_loop : RingBuffer → ℕ → ℕ → List ℕ → ℕ → ℕ → Option (List ℕ × ℕ × ℕ)
read_loop self zero i dst head read = some (dst, head, read)
read_loop self (suc left) i dst head read = do
  b ← get_elem? self.buffer head
  dst' ← put dst i b
  let head' = add_size head 1 % self.capacity
  let rest = read_loop self left (i + 1) dst' head' (read + 1)
  if head' == self.tail then some (dst', head', read) else rest

-- The bytes read, the destination and the ring.
pub rb_read : RingBuffer → List ℕ → ℕ → Option (ℕ × List ℕ × RingBuffer)
unfolding read_loop
rb_read self dst len = do
  (dst', head, read) ← read_loop self len 0 dst self.head 0
  some (read, dst', record self { head = head; size = sub_size self.size len })
