-- ===== src/Buffer/Drain.antt =====
-- `buff_free` called until the buffer is released.
use neonrt.Base.{
  ℕ, zero, suc, ◌^◌, ◌≡◌, ◌<◌, refl, sym, false, not, ◌&&◌, none, some, List, [], ◌∷◌, arith, ◌==◌,
  if◌then◌else◌,
}
use neonrt.Word.{sub_size}
use neonrt.Memory.{Ptr, ManagedBuffer, buff, Heap, write, ok, Cmd, pure, ◌>>=◌}
use neonrt.Memory.Rules.{load_buff-ok, free-ok, Holds-write, Holds-write_ne}
use neonrt.Buffer.{buff_free}
use neonrt.Buffer.Lease.{with_refs}
use neonrt.Buffer.Rules.{IsBuff, apart, buff_return-ok}

-- Memory after `buff_free` of a buffer that is not leased out.
pub buff_free-last :
    {h : Heap} {self : Ptr} {b : ManagedBuffer} {bs : List ℕ}
    → IsBuff h self b bs
    → b.lock ≡ false
    → b.ref_ct ≡ 0
    → buff_free self h ≡ ok 0 (write (write h b.bytes none) self none)
unfolding buff_free
buff_free-last {b} is free unleased =
    rw
      (
        load_buff-ok is.struct,
        free,
        unleased,
        free-ok is.stored,
        free-ok (Holds-write_ne b.bytes none is.struct (apart is)),
      )
      refl

buff_free-leased :
    {h : Heap} {self : Ptr} {b : ManagedBuffer} {bs : List ℕ} (n : ℕ)
    → IsBuff h self b bs
    → b.ref_ct ≡ suc n
    → suc n < 2 ^ 64
    → buff_free self h ≡ ok n (write h self (some (buff (with_refs b n))))
unfolding buff_free
buff_free-leased {b} n is leased small =
    let busy : (not b.lock && b.ref_ct == 0) ≡ false = ground arith in
    let fewer : sub_size b.ref_ct 1 ≡ n = ground arith in
    rw
      (
        load_buff-ok is.struct,
        busy,
        buff_return-ok is.struct,
        fewer,
        load_buff-ok (Holds-write is.struct (buff (with_refs b n))),
      )
      refl

-- A number of calls of `buff_free`, with what they return.
unfoldable pub drain : ℕ → Ptr → Cmd (List ℕ)
drain zero self = pure []
drain (suc n) self = do left ← buff_free self; rest ← drain n self; pure (left ∷ rest)

-- The references left after each call.
abbrev pub countdown : ℕ → List ℕ
countdown zero = 0 ∷ []
countdown (suc n) = n ∷ countdown n

-- An unlocked buffer that `n` references are leased out of is released by `n + 1` calls of `buff_free`:
-- the calls return the references left, `n - 1` to 0, and the last of them 0 again; then the struct and
-- its bytes are free, and all else is as before.
pub drain_releases :
    (n : ℕ) {h : Heap} {self : Ptr} {b : ManagedBuffer} {bs : List ℕ}
    → IsBuff h self b bs
    → b.lock ≡ false
    → b.ref_ct ≡ n
    → n < 2 ^ 64
    → (h' : Heap) × (drain (suc n) self h ≡ ok (countdown n) h')
      × ((q : Ptr) → h' q ≡ (if q == self then none else if q == b.bytes then none else h q))
unfolding drain write
drain_releases zero {h} {self} {b} is free refs small =
    (write (write h b.bytes none) self none, rw (buff_free-last is free refs) refl, λ q. refl)
drain_releases (suc n) {h} {self} {b} is free refs small =
    let after = write h self (some (buff (with_refs b n))) in
    let is' : IsBuff after self (with_refs b n) _ = record {
      struct = Holds-write is.struct (buff (with_refs b n));
      stored = Holds-write_ne self _ is.stored (λ e. apart is (sym e));
      len_in = is.len_in;
    } in
    let (h', runs, same) = drain_releases n is' free refl (omega arith) in
    (h', rw (buff_free-leased n is refs small, runs) refl, λ q. ground (arith, same q))
