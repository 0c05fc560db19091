-- ===== src/Tests/BufferTests.antt =====
-- The buffer of one byte at address 50.
use neonrt.Base.{
  ◌-◌, ◌^◌, ◌≡◌, ◌⊎◌, refl, sym, ℕ, List, ap, ◌∙◌, Bool, false, true, some, none, [], ◌∷◌, arith,
  ◌==◌, if◌then◌else◌,
}
use neonrt.Memory.{Ptr, null, Heap, ok, buff, write, pure, ◌>>◌}
use neonrt.Buffer.{buff_new, buff_borrow, buff_return, buff_return_n, buff_cmp, buff_cmp_raw}
use neonrt.Buffer.New.{buff_new_lem, Created}
use neonrt.Buffer.Lease.{times, Changed, with_refs, borrow-return, buff_return_n_lem}
use neonrt.Buffer.Rules.{IsBuff}
use neonrt.Buffer.Drain.{drain, drain_releases}
use neonrt.Buffer.Compare.{
  Verdict, buff_cmp_lem, runtime_hash, wrap_siphash-runtime_hash, buff_cmp-Verdict,
}
use neonrt.Wire.Order.{decode}
use neonrt.SipWrapper.Laws.{wrap_siphash-decode}
use neonrt.HashMap.{default_seed}
use neonrt.Tests.Roomy.{echo, differ'}
use neonrt.Tests.ListMap.{list_memory, first_is, second_is}
use neonrt.Tests.Fixtures.{memory, memory-IsBuff, small_buff, first_fit, zeros}

buff_new_lem_example :
    (self : Ptr) × (h' : Heap) × (buff_new first_fit (7 ∷ 8 ∷ []) 1 memory ≡ ok self h')
    × (((self ≡ null) × ((q : Ptr) → h' q ≡ memory q)) ⊎ Created memory h' self (7 ∷ []) 1)
buff_new_lem_example = buff_new_lem first_fit (7 ∷ 8 ∷ []) 1 memory (omega arith)

borrow-return_example :
    (h₁ h₂ : Heap) × (times 3 (do buff_borrow 50; pure tt) memory ≡ ok tt h₁)
    × Changed memory h₁ 50 (with_refs small_buff 3)
    × (times 3 (buff_return 50) h₁ ≡ ok tt h₂)
    × ((q : Ptr) → h₂ q ≡ memory q)
borrow-return_example = borrow-return 3 memory-IsBuff.struct refl (omega arith)

buff_return_n_lem_example :
    buff_return_n 50 4 memory
    ≡ ok true (write memory 50 (some (buff (with_refs small_buff (2 ^ 64 - 4)))))
buff_return_n_lem_example = buff_return_n_lem 4 memory-IsBuff.struct (omega arith) (omega arith)

-- Two keys that differ, with a hash function that tells them apart.
buff_cmp-Verdict_example :
    (answer : Bool) × Verdict echo (1 ∷ []) (2 ∷ []) answer
    × (buff_cmp echo 50 52 list_memory ≡ ok answer list_memory)
    × (buff_cmp echo 52 50 list_memory ≡ ok answer list_memory)
    × (buff_cmp_raw echo 50 (some (2 ∷ [])) list_memory ≡ ok answer list_memory)
    × (buff_cmp_raw echo 50 none list_memory ≡ ok false list_memory)
buff_cmp-Verdict_example = buff_cmp-Verdict echo first_is second_is

buff_cmp-apart : buff_cmp echo 50 52 list_memory ≡ ok false list_memory
buff_cmp-apart = buff_cmp_lem echo first_is second_is ∙ ap (λ b. ok b list_memory) differ'

-- The same two keys with a hash function that is always 0.
zero_hash : (key : List ℕ) → some (runtime_hash zeros key) ≡ some 0
unfolding decode
zero_hash key =
    sym (wrap_siphash-runtime_hash zeros key) ∙ wrap_siphash-decode zeros key default_seed

buff_cmp-collide : buff_cmp zeros 50 52 list_memory ≡ ok true list_memory
buff_cmp-collide =
    buff_cmp_lem zeros first_is second_is
    ∙ ap (λ b. ok b list_memory) (ground (arith, zero_hash (1 ∷ []), zero_hash (2 ∷ [])))

-- The buffer with two references leased out.
abbrev lent_memory : Heap
lent_memory = write memory 50 (some (buff (with_refs small_buff 2)))

lent-IsBuff : IsBuff lent_memory 50 (with_refs small_buff 2) (1 ∷ [])
unfolding memory write
lent-IsBuff = record {
  struct = record { ne_null = omega arith; at = refl };
  stored = record { ne_null = omega arith; at = refl };
  len_in = omega arith;
}

drain_releases_example :
    (h' : Heap) × (drain 3 50 lent_memory ≡ ok (1 ∷ 0 ∷ 0 ∷ []) h')
    × ((q : Ptr) → h' q ≡ (if q == 50 then none else if q == 51 then none else lent_memory q))
drain_releases_example = drain_releases 2 lent-IsBuff refl refl (omega arith)
