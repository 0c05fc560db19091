-- ===== src/Buffer.antt =====
-- containers/buffer.c: a byte buffer with a count of the references leased out and a lock.
-- A `neon_buff_t *` is the address of its struct, whose `data` is the address of its bytes. Bytes that
-- a caller passes by pointer and length are a list of at least that many bytes. utf8proc is a parameter.
pub mod Rules
pub mod New
pub mod Roomy
pub mod Lease
pub mod Drain
pub mod Compare
pub mod Utf8
use neonrt.Base.{ℕ, zero, suc, Bool, true, false, not, ◌&&◌, Option, none, some}
use neonrt.Base.{List, take, drop, length, ltb, leb, ◌==◌, if◌then◌else◌}
use neonrt.Word.{add_size, sub_size}
use neonrt.Memory.{Ptr, null, block, buff, ok, fault, out_of_fuel}
use neonrt.Memory.{Cmd, pure, ◌>>=◌, ◌>>◌, Allocator, allocate, init, free, store}
use neonrt.Memory.{load_block, load_buff}
use neonrt.SipWrapper.{SipHash, wrap_siphash}

-- `utf8proc_iterate(str, 4, &codepoint)` on the bytes from `str` on: the number of bytes of the first
-- code point, or a negative error code, as the `size_t` that `idx +=` makes of it.
pub record Utf8proc : Type 0 where
  pub iterate : List ℕ → ℕ

-- The loop of `validate_utf8`. `none` is a loop that the rounds given cut off. `idx` is unsigned, so
-- `<= 0` holds at 0 only.
pub validate_loop : Utf8proc → List ℕ → ℕ → ℕ → ℕ → Option Bool
validate_loop u bytes len zero idx = none
validate_loop u bytes len (suc rounds) idx =
    let idx' = add_size idx (u.iterate (drop idx bytes)) in
    let rest = validate_loop u bytes len rounds idx' in
    if ltb idx len then (if idx' == 0 then some false else rest) else some true

-- `validate_utf8`, in at most `rounds` rounds.
pub validate_utf8 : Utf8proc → ℕ → List ℕ → ℕ → Option Bool
unfolding validate_loop
validate_utf8 u rounds bytes len = validate_loop u bytes len rounds 0

-- `memcpy(p, value, n)` into a block of `malloc`; a read past the end of `value` is a fault.
pub copy_in : Ptr → List ℕ → ℕ → Cmd (Unit {0})
copy_in p value n = if leb n (length value) then init p (block (take n value)) else (λ h. fault)

-- The first `n` bytes at `p`.
unfoldable pub read_bytes : Ptr → ℕ → Cmd (List ℕ)
read_bytes p n = do
  bytes ← load_block p
  if leb n (length bytes) then pure (take n bytes) else (λ h. fault)

unfoldable pub buff_new : Allocator → List ℕ → ℕ → Cmd Ptr
unfolding copy_in
buff_new a value val_len = do
  self ← allocate a 40
  if self == null then pure null else do
    bytes ← allocate a val_len
    if bytes == null then free self >> pure null else do
      copy_in bytes value val_len
      init self (
          buff (record {
            bytes = bytes;
            len = val_len;
            ref_ct = 0;
            needs_sync = false;
            lock = false;
            is_utf8 = 0;
          }))
      pure self

unfoldable pub buff_borrow : Ptr → Cmd Ptr
buff_borrow self = do
  b ← load_buff self
  if not b.lock
      then store self (buff (record b { ref_ct = add_size b.ref_ct 1 })) >> pure b.bytes
      else pure null

unfoldable pub buff_borrow_writable : Ptr → Cmd Ptr
buff_borrow_writable self = do
  b ← load_buff self
  if b.ref_ct == 0 && not b.lock
      then store self (buff (record b { lock = true; needs_sync = true })) >> pure b.bytes
      else pure null

unfoldable pub buff_len : Ptr → Cmd ℕ
buff_len self = do b ← load_buff self; pure b.len

-- `rt_hash_fn`
unfoldable pub rt_hash_fn : SipHash → List ℕ → Cmd ℕ
rt_hash_fn sip bytes h = elim (wrap_siphash sip bytes 0x19E3779B97F4A7C1) [
  | none ↦ fault
  | some v ↦ ok v h
]

unfoldable pub buff_cmp : SipHash → Ptr → Ptr → Cmd Bool
unfolding rt_hash_fn read_bytes
buff_cmp sip left right = do
  l ← load_buff left
  r ← load_buff right
  if not (l.bytes == null) && not (r.bytes == null)
      then (do
        left_bytes ← read_bytes l.bytes l.len
        lhash ← rt_hash_fn sip left_bytes
        right_bytes ← read_bytes r.bytes r.len
        rhash ← rt_hash_fn sip right_bytes
        pure (lhash == rhash))
      else pure false

-- `right` is the `len` bytes at the pointer, `none` if it is NULL.
unfoldable pub buff_cmp_raw : SipHash → Ptr → Option (List ℕ) → Cmd Bool
unfolding rt_hash_fn read_bytes
buff_cmp_raw sip left none = do l ← load_buff left; pure false
buff_cmp_raw sip left (some right_bytes) = do
  l ← load_buff left
  if not (l.bytes == null)
      then (do
        left_bytes ← read_bytes l.bytes l.len
        lhash ← rt_hash_fn sip left_bytes
        rhash ← rt_hash_fn sip right_bytes
        pure (lhash == rhash))
      else pure false

-- Under the lock both functions assign `lock` and `needs_sync` to themselves.
unfoldable pub buff_return : Ptr → Cmd (Unit {0})
buff_return self = do
  b ← load_buff self
  store self (buff (record b { ref_ct = sub_size b.ref_ct 1 }))

-- `ref_ct - n` is unsigned, so `<= 0` holds at 0 only.
unfoldable pub buff_return_n : Ptr → ℕ → Cmd Bool
buff_return_n self n = do
  b ← load_buff self
  if sub_size b.ref_ct n == 0
      then pure false
      else store self (buff (record b { ref_ct = sub_size b.ref_ct n })) >> pure true

unfoldable pub buff_free : Ptr → Cmd ℕ
unfolding buff_return
buff_free self = do
  b ← load_buff self
  if not b.lock && b.ref_ct == 0
      then free b.bytes >> (free self >> pure 0)
      else do buff_return self; b' ← load_buff self; pure b'.ref_ct

unfoldable pub buff_force_free : Ptr → Cmd ℕ
buff_force_free self = do
  b ← load_buff self
  if not b.lock && b.ref_ct == 0
      then free b.bytes >> (free self >> pure 0)
      else do store self (buff (record b { ref_ct = 0 })); free b.bytes; free self; pure 0

-- The verdict is kept in `is_utf8`: 1 valid, 2 not valid, 0 not known.
unfoldable pub buff_validate_utf8 : Utf8proc → ℕ → Ptr → Cmd Bool
buff_validate_utf8 u rounds self = do
  b ← load_buff self
  if b.is_utf8 == 0
      then (do
        bytes ← load_block b.bytes
        valid ← (λ h. elim (validate_utf8 u rounds bytes b.len) [
          | none ↦ out_of_fuel
          | some v ↦ ok v h
        ])
        store self (buff (record b { is_utf8 = if valid then 1 else 2 }))
        pure valid)
      else pure (not (b.is_utf8 == 2))
