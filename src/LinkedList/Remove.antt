-- ===== src/LinkedList/Remove.antt =====
-- `ll_remove_node` after the second position of a valid list.
use neonrt.Base.{
  suc, ◌+◌, ◌^◌, ◌≡◌, ◌≢◌, ◌<◌, refl, sym, ap, false, ◌||◌, none, some, [], ◌∷◌, ◌++◌, arith, ltb,
  length, length-append,
}
use neonrt.Word.{sub_size}
use neonrt.Memory.{Ptr, null, LinkedList, list, Heap, write, ok}
use neonrt.Memory.Rules.{
  Holds, load_list-ok, load_node-ok, not_null, free-ok, Holds-write, Holds-write_ne,
}
use neonrt.LinkedList.{ll_remove_node, remove_walk}
use neonrt.LinkedList.Seg.{Nodes, has, ll_node, Seg, nil, cons, Seg-write, not-has}
use neonrt.LinkedList.Add.{IsList}

pub has-append : (a : Ptr) (xs ys : Nodes) → has a (xs ++ ys) ≡ (has a xs || has a ys)
has-append a [] ys = refl
has-append a ((p, v) ∷ xs) ys = ground (arith, has-append a xs ys)

-- Two nodes in a row of a chain.
record Pair (h : Heap) (stop q₁ v₁ q₂ v₂ : Ptr) (ys : Nodes) : Type 0 where
  next : Ptr
  first : Holds h q₁ (ll_node q₂ v₁)
  second : Holds h q₂ (ll_node next v₂)
  out : has q₁ ((q₂, v₂) ∷ ys) ≡ false
  out' : has q₂ ys ≡ false
  rest : Seg h stop next ys

Seg-Pair :
    {h : Heap} {stop q₁ v₁ q₂ v₂ : Ptr} {ys : Nodes} {p : Ptr} (xs : Nodes)
    → Seg h stop p (xs ++ ((q₁, v₁) ∷ (q₂, v₂) ∷ ys))
    → Pair h stop q₁ v₁ q₂ v₂ ys
Seg-Pair [] (cons e fresh (cons e' fresh' s)) = record {
  next = _;
  first = e;
  second = e';
  out = fresh;
  out' = fresh';
  rest = s;
}
Seg-Pair ((p, v) ∷ xs) (cons e fresh s) = Seg-Pair xs s

-- The walk reaches a node of the chain and the one after it.
remove_walk-reaches :
    {h : Heap} {stop p q v r : Ptr} (xs ys : Nodes) (prev : Ptr)
    → Seg h stop p (xs ++ ((q, v) ∷ ys))
    → Holds h q (ll_node r v)
    → remove_walk (suc (length xs)) prev p h ≡ ok (q, r) h
unfolding remove_walk
remove_walk-reaches [] ys prev (cons e fresh s) at = rw (not_null at, load_node-ok at) refl
remove_walk-reaches ((p, v) ∷ xs) ys prev (cons e fresh s) at =
    rw (not_null e, load_node-ok e) (remove_walk-reaches xs ys p s at)

-- The chain past a node that is taken out and freed, as the header at `self` is written.
relinked :
    {h : Heap} {stop q₁ v₁ q₂ v₂ : Ptr} {ys : Nodes} {p self : Ptr} (xs : Nodes) (l l' : LinkedList)
    → Seg h stop p (xs ++ ((q₁, v₁) ∷ (q₂, v₂) ∷ ys))
    → (pair : Pair h stop q₁ v₁ q₂ v₂ ys) → Holds h self (list l)
    → Seg
        (write (write (write h q₁ (some (ll_node pair.next v₁))) self (some (list l'))) q₂ none)
        stop
        p
        (xs ++ ((q₁, v₁) ∷ ys))
relinked {h} {q₁} {v₁} {q₂} {self} [] l l' (cons e fresh s) pair at =
    let spare = not-has self pair.rest (λ q v e'. ground (arith, at.at, e')) in
    cons
      (Holds-write_ne q₂ none
        (Holds-write_ne self _ (Holds-write e (ll_node pair.next v₁))
          (λ z. ground (arith, at.at, e.at, ap h z)))
        (ground (arith, pair.out)))
      (ground (arith, pair.out))
      (Seg-write q₂ none
        (Seg-write self _ (Seg-write q₁ _ pair.rest (ground (arith, pair.out))) spare) pair.out')
relinked {h} {q₁} {v₁} {q₂} {v₂} {ys} {self} ((p, v) ∷ xs) l l' (cons e fresh s) pair at =
    let out = has-append p xs ((q₁, v₁) ∷ (q₂, v₂) ∷ ys) in
    let out' = has-append p xs ((q₁, v₁) ∷ ys) in
    cons
      (Holds-write_ne q₂ none
        (Holds-write_ne self _ (Holds-write_ne q₁ _ e (ground (arith, fresh, out)))
          (λ z. ground (arith, at.at, e.at, ap h z)))
        (ground (arith, fresh, out)))
      (ground (arith, fresh, out, out')) (relinked xs l l' s pair at)

link_of :
    {h : Heap} {stop p : Ptr} (q v : Ptr) (xs : Nodes)
    → Seg h stop p (xs ++ ((q, v) ∷ []))
    → Holds h q (ll_node stop v)
link_of q v [] (cons e fresh nil) = e
link_of q v ((p, w) ∷ xs) (cons e fresh s) = link_of q v xs s

module _ {h : Heap} {self : Ptr} {l : LinkedList} {v : Ptr} where
  -- On a valid list whose length is below `2 ^ 64 - 1`, `ll_remove_node` at a position from 2 on, other
  -- than the last, takes out and frees the node at that position, counted from 1, and leaves the valid
  -- list of the other nodes.
  pub ll_remove_node_lem :
      (q₁ v₁ q₂ v₂ : Ptr) (xs ys : Nodes)
      → IsList h self l (xs ++ ((q₁, v₁) ∷ (q₂, v₂) ∷ ys)) v
      → length xs + length ys + 3 < 2 ^ 64
      → (h' : Heap) × (ll_remove_node self (length xs + 2) h ≡ ok tt h')
        × (h' q₂ ≡ none)
        × IsList h' self (record l { len = length xs + length ys + 2 }) (xs ++ ((q₁, v₁) ∷ ys)) v
  unfolding ll_remove_node write
  ll_remove_node_lem q₁ v₁ q₂ v₂ xs ys is short =
      let pair = Seg-Pair xs is.chain in
      let long = length-append xs ((q₁, v₁) ∷ (q₂, v₂) ∷ ys) in
      let long' = length-append xs ((q₁, v₁) ∷ ys) in
      let reached : ltb l.len (length xs + 2) ≡ false = ground (arith, is.count, long) in
      let rounds : sub_size (length xs + 2) 1 ≡ suc (length xs) = ground (arith, short) in
      let fewer : sub_size l.len 1 ≡ length xs + length ys + 2 = ground (arith, is.count, long) in
      let l' = record l { len = length xs + length ys + 2 } in
      let ne : q₁ ≢ self = λ e. ground (arith, is.header.at, pair.first.at, ap h e) in
      let ne' : q₂ ≢ self = λ e. ground (arith, is.header.at, pair.second.at, ap h e) in
      let ne'' : q₂ ≢ q₁ = ground (arith, pair.out) in
      let far : l.last ≢ self = λ e. ground (arith, is.header.at, is.back.at, ap h e) in
      let apart = has-append l.last xs ((q₁, v₁) ∷ (q₂, v₂) ∷ ys) in
      let apart' = has-append l.last xs ((q₁, v₁) ∷ ys) in
      let h1 = write h q₁ (some (ll_node pair.next v₁)) in
      let h2 = write h1 self (some (list l')) in
      let second : Holds h2 q₂ (ll_node pair.next v₂) =
        Holds-write_ne self _ (Holds-write_ne q₁ _ pair.second ne'') ne' in
      (
        write h2 q₂ none,
        rw
            (
              load_list-ok is.header,
              reached,
              rounds,
              remove_walk-reaches xs ((q₂, v₂) ∷ ys) null is.chain pair.first,
              not_null pair.first,
              not_null pair.second,
              load_node-ok pair.second,
              load_node-ok pair.first,
              fewer,
              free-ok second,
            )
            refl,
        ground arith,
        record {
          header =
              Holds-write_ne q₂ none
                (Holds-write (Holds-write_ne q₁ _ is.header (λ e. ne (sym e))) (list l'))
                (λ e. ne' (sym e));
          chain = relinked xs l l' is.chain pair is.header;
          back =
              Holds-write_ne q₂ none
                (Holds-write_ne self _
                  (Holds-write_ne q₁ _ is.back (ground (arith, is.distinct, apart))) far)
                (ground (arith, is.distinct, apart));
          distinct = ground (arith, is.distinct, apart, apart');
          count = omega (arith, long');
        },
      )

  -- On a valid list of two or more nodes whose length is below `2 ^ 64 - 1`, `ll_remove_node` at the
  -- last position frees the last node, and makes the one before it the end of the chain; but the
  -- header still has the node that is freed as its last.
  ll_remove_node-last :
      (q₁ v₁ : Ptr) (xs : Nodes)
      → IsList h self l (xs ++ ((q₁, v₁) ∷ [])) v
      → length xs + 3 < 2 ^ 64
      → (h' : Heap) × (ll_remove_node self (length xs + 2) h ≡ ok tt h')
        × Holds h' self (list (record l { len = length xs + 1 }))
        × Holds h' q₁ (ll_node null v₁)
        × (h' l.last ≡ none)
  unfolding ll_remove_node write
  ll_remove_node-last q₁ v₁ xs is short =
      let link = link_of q₁ v₁ xs is.chain in
      let long = length-append xs ((q₁, v₁) ∷ []) in
      let reached : ltb l.len (length xs + 2) ≡ false = ground (arith, is.count, long) in
      let rounds : sub_size (length xs + 2) 1 ≡ suc (length xs) = ground (arith, short) in
      let fewer : sub_size l.len 1 ≡ length xs + 1 = ground (arith, is.count, long) in
      let ne : q₁ ≢ self = λ e. ground (arith, is.header.at, link.at, ap h e) in
      let far : l.last ≢ self = λ e. ground (arith, is.header.at, is.back.at, ap h e) in
      let ne' : l.last ≢ q₁ = ground (arith, is.distinct, has-append l.last xs ((q₁, v₁) ∷ [])) in
      let l' = record l { len = length xs + 1 } in
      let h2 = write (write h q₁ (some (ll_node null v₁))) self (some (list l')) in
      let back : Holds h2 l.last (ll_node null v) =
        Holds-write_ne self _ (Holds-write_ne q₁ _ is.back ne') far in
      (
        write h2 l.last none,
        rw
            (
              load_list-ok is.header,
              reached,
              rounds,
              remove_walk-reaches xs [] null is.chain link,
              not_null link,
              not_null is.back,
              load_node-ok is.back,
              load_node-ok link,
              fewer,
              free-ok back,
            )
            refl,
        Holds-write_ne l.last none
            (Holds-write (Holds-write_ne q₁ _ is.header (λ e. ne (sym e))) (list l'))
            (λ e. far (sym e)),
        Holds-write_ne l.last none (Holds-write_ne self _ (Holds-write link (ll_node null v₁)) ne)
            (λ e. ne' (sym e)),
        ground arith,
      )
