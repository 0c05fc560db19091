-- ===== src/LinkedList/Nth.antt =====
-- `ll_gnat` and `ll_remove_node` by position in a valid list.
use neonrt.Base.{ℕ, zero, suc, ◌+◌, ◌^◌, ◌≡◌, ◌≤◌, ◌<◌, refl, true, false, inl, inr, Bool-cases}
use neonrt.Base.{[], ◌∷◌, ◌++◌, arith, ◌==◌, ltb, length, length-append, if◌then◌else◌}
use neonrt.Word.{sub_size}
use neonrt.Memory.{Ptr, null, LinkedList, Heap, ok}
use neonrt.Memory.Rules.{Holds, load_list-ok, load_node-ok, not_null}
use neonrt.LinkedList.{ll_gnat, ll_gnat_impl, gnat_loop, ll_remove_node, remove_walk}
use neonrt.LinkedList.Seg.{Nodes, ll_node, Seg, nil, cons, start-ne-null}
use neonrt.LinkedList.Add.{IsList, nodes}

-- The address of the node at a position, counted from 0; a null pointer past the end.
abbrev pub nth : Nodes → ℕ → Ptr
nth [] i = null
nth ((p, _) ∷ xs) zero = p
nth ((_, _) ∷ xs) (suc i) = nth xs i

module _ {h : Heap} {stop v : Ptr} where
  gnat_loop-Seg :
      {p : Ptr} {xs : Nodes} (at : ℕ)
      → Seg h stop p xs
      → Holds h stop (ll_node null v)
      → at ≤ length xs
      → gnat_loop at p h ≡ ok (nth (xs ++ ((stop, v) ∷ [])) at) h
  unfolding gnat_loop
  gnat_loop-Seg zero nil e le = refl
  gnat_loop-Seg (suc at) nil e le = ground arith
  gnat_loop-Seg zero (cons e fresh s) e' le = refl
  gnat_loop-Seg (suc at) (cons {p} {q} e fresh s) e' le =
      let more : (q == null) ≡ false = let ne = start-ne-null s e'.ne_null in ground arith in
      rw (load_node-ok e, more) (gnat_loop-Seg at s e' (omega arith))

  -- A walk with rounds left over ends at the null pointer, past the last node.
  remove_walk-Seg :
      {p : Ptr} {xs : Nodes} (rounds : ℕ) (prev : Ptr)
      → Seg h stop p xs
      → Holds h stop (ll_node null v)
      → length xs + 1 < rounds
      → remove_walk rounds prev p h ≡ ok (stop, null) h
  unfolding remove_walk
  remove_walk-Seg zero prev s e room = ground arith
  remove_walk-Seg (suc zero) prev s e room = ground arith
  remove_walk-Seg (suc (suc rounds)) prev nil e room = rw (not_null e, load_node-ok e) refl
  remove_walk-Seg (suc (suc rounds)) prev (cons {p} e fresh s) e' room =
      rw (not_null e, load_node-ok e) (remove_walk-Seg (suc rounds) p s e' (ground arith))

nth-end : (xs : Nodes) (i : ℕ) → length xs ≤ i → nth xs i ≡ null
nth-end [] i le = refl
nth-end (_ ∷ xs) zero le = ground arith
nth-end (_ ∷ xs) (suc i) le = nth-end xs i (ground arith)

module _ {h : Heap} {self : Ptr} {l : LinkedList} {front : Nodes} {v : Ptr}
    (is : IsList h self l front v) where
  started : (l.first == null) ≡ false
  started = let ne = start-ne-null is.chain is.back.ne_null in ground arith

  -- On a valid list `ll_gnat` returns the node at the position given, counted from 0; at the position
  -- after the last node it returns the last node again, and beyond it a null pointer. Memory stays.
  pub ll_gnat_lem :
      (at : ℕ)
      → ll_gnat self at h
        ≡ ok (if at == length (nodes l front v) then l.last else nth (nodes l front v) at) h
  unfolding ll_gnat ll_gnat_impl
  ll_gnat_lem at =
      let len' = length-append front ((l.last, v) ∷ []) in
      rw (load_list-ok is.header, started)
        (elim (Bool-cases (ltb at l.len)) [
          | inl lt ↦
              let ne : (at == length (nodes l front v)) ≡ false = ground (arith, is.count, len') in
              rw (lt, ne) (gnat_loop-Seg at is.chain is.back (ground (arith, is.count)))
          | inr ge ↦ elim (Bool-cases (at == l.len)) [
            | inl e ↦
                let same : (at == length (nodes l front v)) ≡ true =
                  ground (arith, is.count, len') in
                rw (ge, e, same) refl
            | inr ne ↦
                let other : (at == length (nodes l front v)) ≡ false =
                  ground (arith, is.count, len') in
                let later : (at == 0) ≡ false = ground (arith, is.count) in
                let past = nth-end (nodes l front v) at (ground (arith, is.count, len')) in
                rw (ge, ne, later, other, past) refl
          ]
        ])

  -- On a valid list whose length is below `2 ^ 64 - 1`, `ll_remove_node` at position 0 or 1
  -- changes nothing.
  pub ll_remove_node-first :
      length front + 2 < 2 ^ 64 → (at : ℕ) → at ≤ 1 → ll_remove_node self at h ≡ ok tt h
  unfolding ll_remove_node
  ll_remove_node-first room at le =
      let reached : ltb l.len at ≡ false = ground (arith, is.count) in
      elim (Bool-cases (at == 0)) [
        | inl e ↦
            let many : length front + 1 < sub_size at 1 = ground arith in
            rw
              (
                load_list-ok is.header,
                reached,
                remove_walk-Seg (sub_size at 1) null is.chain is.back many,
                not_null is.back,
              )
              refl
        | inr ne ↦
            let stay : sub_size at 1 ≡ 0 = ground arith in
            rw (load_list-ok is.header, reached, stay) refl
      ]
