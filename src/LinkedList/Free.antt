-- ===== src/LinkedList/Free.antt =====
-- `ll_free` on a valid list.
use std.Path.{fun_ext}
use neonrt.Base.{ℕ, zero, suc, ◌+◌, ◌≡◌, ◌≢◌, ◌<◌, refl, ap, false, ◌||◌, none, Option}
use neonrt.Base.{[], ◌∷◌, arith, ◌==◌, length, if◌then◌else◌}
use neonrt.Memory.{Ptr, null, LinkedList, list, Heap, write, ok, Object}
use neonrt.Memory.Rules.{Holds, load_list-ok, load_node-ok, free-ok, Holds-write_ne, not_null}
use neonrt.LinkedList.{ll_free, free_loop}
use neonrt.LinkedList.Seg.{Nodes, has, ll_node, Seg, nil, cons, Seg-write, not-has, has-append}
use neonrt.LinkedList.Add.{IsList, nodes}

-- Memory without the nodes given.
abbrev pub without : Nodes → Heap → Heap
without [] h = h
without ((p, v) ∷ xs) h = without xs (write h p none)

-- A chain and the node that it leads to are freed in as many rounds as there are nodes, and one more.
free_loop-Seg :
    (rounds : ℕ) {h : Heap} {stop p v : Ptr} {xs : Nodes}
    → Seg h stop p xs
    → has stop xs ≡ false
    → Holds h stop (ll_node null v)
    → length xs + 1 < rounds
    → free_loop rounds p h ≡ ok tt (write (without xs h) stop none)
unfolding free_loop
free_loop-Seg zero s out e room = ground arith
free_loop-Seg (suc zero) s out e room = ground arith
free_loop-Seg (suc (suc rounds)) nil out e room = rw (not_null e, load_node-ok e, free-ok e) refl
free_loop-Seg (suc (suc rounds)) {h} {stop} (cons {p} {q} {v = w} {xs} e fresh s) out e' room =
    rw (not_null e, load_node-ok e, free-ok e)
      (free_loop-Seg (suc rounds) (Seg-write p none s fresh) (ground arith)
        (Holds-write_ne p none e' (ground arith)) (ground arith))

write_lem :
    (h : Heap) (p : Ptr) (c : Option Object) (a : Ptr) → write h p c a ≡ (if a == p then c else h a)
unfolding write
write_lem h p c a = refl

without-has : (xs : Nodes) (h : Heap) (a : Ptr) → without xs h a ≡ (if has a xs then none else h a)
without-has [] h a = refl
without-has ((p, v) ∷ xs) h a =
    ground (arith, without-has xs (write h p none) a, write_lem h p none a)

module _ {h : Heap} {self : Ptr} {l : LinkedList} {front : Nodes} {v : Ptr}
    (is : IsList h self l front v) where
  self-out : has self front ≡ false
  self-out = not-has self is.chain (λ q w e. ground (arith, is.header.at, e))

  self-ne-last : self ≢ l.last
  self-ne-last e = ground (arith, is.header.at, is.back.at, ap h e)

  header' : Holds (write (without front h) l.last none) self (list l)
  header' = record {
    ne_null = is.header.ne_null;
    at = ground (
      arith,
      write_lem (without front h) l.last none self,
      without-has front h self,
      is.header.at,
      self-out,
      self-ne-last,
    );
  }

  has-nodes : (a : Ptr) → has a (nodes l front v) ≡ (has a front || (a == l.last))
  has-nodes a = has-append a l.last v front

  freed_at :
      (a : Ptr)
      → write (write (without front h) l.last none) self none a
        ≡ (if (a == self) || has a (nodes l front v) then none else h a)
  freed_at a = ground (
    arith,
    write_lem (write (without front h) l.last none) self none a,
    write_lem (without front h) l.last none a,
    without-has front h a,
    has-nodes a,
  )

  -- Of a valid list `ll_free`, in more rounds than the list has nodes, frees each node and the
  -- header, and it changes nothing else.
  pub ll_free_lem :
      (rounds : ℕ)
      → length front + 1 < rounds
      → ll_free rounds self h
        ≡ ok tt (λ a. if (a == self) || has a (nodes l front v) then none else h a)
  unfolding ll_free
  ll_free_lem rounds enough =
      rw
        (
          load_list-ok is.header,
          free_loop-Seg rounds is.chain is.distinct is.back enough,
          free-ok header',
        )
        (ap (ok tt) (fun_ext freed_at))
