-- ===== src/Buffer/Compare.antt =====
-- `buff_cmp` and `buff_cmp_raw`.
use native.Mathlib.Decide.{ℕ_discrete}
use mathlib.Core.List.{List-discrete}
use neonrt.Base.{
  ℕ, ◌≡◌, ◌≢◌, ◌∙◌, refl, ap, Bool, true, false, some, none, List, arith, ◌==◌, take, Bool-cases,
  inl, inr,
}
use neonrt.Memory.{Ptr, ManagedBuffer, Heap, ok}
use neonrt.Memory.Rules.{not_null, load_buff-ok}
use neonrt.SipWrapper.{SipHash, wrap_siphash}
use neonrt.SipWrapper.Laws.{wrap_siphash_total}
use neonrt.Buffer.{buff_cmp, buff_cmp_raw, rt_hash_fn}
use neonrt.Buffer.Rules.{IsBuff, read_bytes-ok}

module _ (sip : SipHash) where
  -- The hash that `rt_hash_fn` takes.
  pub runtime_hash : List ℕ → ℕ
  runtime_hash bytes = (wrap_siphash_total sip bytes 0x19E3779B97F4A7C1).0

  pub wrap_siphash-runtime_hash :
      (bytes : List ℕ) → wrap_siphash sip bytes 0x19E3779B97F4A7C1 ≡ some (runtime_hash bytes)
  unfolding runtime_hash
  wrap_siphash-runtime_hash bytes = (wrap_siphash_total sip bytes 0x19E3779B97F4A7C1).1

  pub rt_hash_fn-ok :
      (bytes : List ℕ) (h : Heap) → rt_hash_fn sip bytes h ≡ ok (runtime_hash bytes) h
  unfolding rt_hash_fn runtime_hash
  rt_hash_fn-ok bytes h = rw ((wrap_siphash_total sip bytes 0x19E3779B97F4A7C1).1, rt_hash_fn)

  -- The answers to a comparison of bytes by their hashes.
  pub data Verdict (ls rs : List ℕ) : Bool → Type 0 where
    equal : ls ≡ rs → Verdict ls rs true
    collide : ls ≢ rs → runtime_hash ls ≡ runtime_hash rs → Verdict ls rs true
    different : runtime_hash ls ≢ runtime_hash rs → Verdict ls rs false

  verdict : (ls rs : List ℕ) → Verdict ls rs (runtime_hash ls == runtime_hash rs)
  verdict ls rs = elim (Bool-cases (runtime_hash ls == runtime_hash rs)) [
    | inr e ↦ rw e (different (ground (arith, e)))
    | inl e ↦ elim (List-discrete ℕ_discrete ls rs) [
      | yes same ↦ rw e (equal same)
      | no other ↦ rw e (collide other (ground (arith, e)))
    ]
  ]

  module _ {h : Heap} {left : Ptr} {l : ManagedBuffer} {ls : List ℕ} (is : IsBuff h left l ls) where
    -- `buff_cmp_raw` of a buffer and bytes that are there says whether their hashes are equal, and
    -- changes nothing.
    pub buff_cmp_raw_lem :
        (bytes : List ℕ)
        → buff_cmp_raw sip left (some bytes) h
          ≡ ok (runtime_hash (take l.len ls) == runtime_hash bytes) h
    unfolding buff_cmp_raw
    buff_cmp_raw_lem bytes =
        rw
          (
            load_buff-ok is.struct,
            not_null is.stored,
            read_bytes-ok l.len is.stored is.len_in,
            rt_hash_fn-ok (take l.len ls) h,
            rt_hash_fn-ok bytes h,
          )
          refl

    -- `buff_cmp` of two buffers says whether their hashes are equal, and changes nothing.
    pub buff_cmp_lem :
        {right : Ptr} {r : ManagedBuffer} {rs : List ℕ}
        → IsBuff h right r rs
        → buff_cmp sip left right h
          ≡ ok (runtime_hash (take l.len ls) == runtime_hash (take r.len rs)) h
    unfolding buff_cmp
    buff_cmp_lem {right} {r} {rs} is' =
        rw
          (
            load_buff-ok is.struct,
            load_buff-ok is'.struct,
            not_null is.stored,
            not_null is'.stored,
            read_bytes-ok l.len is.stored is.len_in,
            rt_hash_fn-ok (take l.len ls) h,
            read_bytes-ok r.len is'.stored is'.len_in,
            rt_hash_fn-ok (take r.len rs) h,
          )
          refl

  -- For any two buffers, `buff_cmp`, in either order, and `buff_cmp_raw` of one and the bytes of the
  -- other give one answer and change nothing, and `buff_cmp_raw` of a null pointer is false. The
  -- answer is true where the bytes are equal, false where their hashes differ, and true, too, where
  -- the bytes differ and their hashes are the same; no other case is left.
  pub buff_cmp-Verdict :
      {h : Heap} {left right : Ptr} {l r : ManagedBuffer} {ls rs : List ℕ}
      → IsBuff h left l ls
      → IsBuff h right r rs
      → (answer : Bool) × Verdict (take l.len ls) (take r.len rs) answer
        × (buff_cmp sip left right h ≡ ok answer h)
        × (buff_cmp sip right left h ≡ ok answer h)
        × (buff_cmp_raw sip left (some (take r.len rs)) h ≡ ok answer h)
        × (buff_cmp_raw sip left none h ≡ ok false h)
  unfolding buff_cmp_raw
  buff_cmp-Verdict {h} {l = l} {r = r} {ls = ls} {rs = rs} is is' =
      let hash = runtime_hash (take l.len ls) in
      let hash' = runtime_hash (take r.len rs) in
      let swapped : (hash' == hash) ≡ (hash == hash') = ground arith in
      (
        hash == hash',
        verdict (take l.len ls) (take r.len rs),
        buff_cmp_lem is is',
        buff_cmp_lem is' is ∙ ap (λ b. ok b h) swapped,
        buff_cmp_raw_lem is (take r.len rs),
        rw (load_buff-ok is.struct) refl,
      )
