-- ===== src/Buffer/Rules.antt =====
-- The functions of buffer.c at a buffer that is there.
use neonrt.Base.{
  ℕ, ◌≡◌, ◌≢◌, ◌≤◌, true, false, not, ◌&&◌, some, List, arith, ◌==◌, length, take, le→leb,
}
use neonrt.Word.{add_size, sub_size}
use neonrt.Memory.{Ptr, null, ManagedBuffer, block, buff, Heap, write, ok}
use neonrt.Memory.Rules.{Holds, load_buff-ok, load_block-ok}
use neonrt.Buffer.{buff_borrow, buff_borrow_writable, buff_return, read_bytes}

-- `self` is a buffer with struct `b` over the bytes `bs`.
pub record IsBuff (h : Heap) (self : Ptr) (b : ManagedBuffer) (bs : List ℕ) : Type 0 where
  pub struct : Holds h self (buff b)
  pub stored : Holds h b.bytes (block bs)
  pub len_in : b.len ≤ length bs

-- The buffer at `p` holds the bytes `key`, and it is not locked.
pub record KeyAt (h : Heap) (p : Ptr) (key : List ℕ) : Type 0 where
  pub struct : ManagedBuffer
  pub bytes : List ℕ
  pub is : IsBuff h p struct bytes
  pub holds : take struct.len bytes ≡ key
  pub unlocked : struct.lock ≡ false

pub apart :
    {h : Heap} {self : Ptr} {b : ManagedBuffer} {bs : List ℕ} → IsBuff h self b bs → self ≢ b.bytes
apart is = ground arith

module _ {h : Heap} {self : Ptr} {b : ManagedBuffer} (e : Holds h self (buff b)) where
  pub buff_borrow-ok :
      b.lock ≡ false
      → buff_borrow self h
        ≡ ok b.bytes (write h self (some (buff (record b { ref_ct = add_size b.ref_ct 1 }))))
  unfolding buff_borrow
  buff_borrow-ok free = rw (load_buff-ok e, free)

  pub buff_borrow-locked : b.lock ≡ true → buff_borrow self h ≡ ok null h
  unfolding buff_borrow
  buff_borrow-locked held = rw (load_buff-ok e, held)

  pub buff_borrow_writable-refused :
      (b.ref_ct == 0 && not b.lock) ≡ false → buff_borrow_writable self h ≡ ok null h
  unfolding buff_borrow_writable
  buff_borrow_writable-refused no_lease = rw (load_buff-ok e, no_lease)

  pub buff_borrow_writable-ok :
      (b.ref_ct == 0 && not b.lock) ≡ true
      → buff_borrow_writable self h
        ≡ ok b.bytes (write h self (some (buff (record b { lock = true; needs_sync = true }))))
  unfolding buff_borrow_writable
  buff_borrow_writable-ok lease = rw (load_buff-ok e, lease)

  pub buff_return-ok :
      buff_return self h
      ≡ ok tt (write h self (some (buff (record b { ref_ct = sub_size b.ref_ct 1 }))))
  unfolding buff_return
  buff_return-ok = rw (load_buff-ok e)

pub read_bytes-ok :
    {h : Heap} {p : Ptr} {bs : List ℕ} (n : ℕ)
    → Holds h p (block bs)
    → n ≤ length bs
    → read_bytes p n h ≡ ok (take n bs) h
unfolding read_bytes
read_bytes-ok {bs} n e fits = rw (load_block-ok e, le→leb n (length bs) fits)
