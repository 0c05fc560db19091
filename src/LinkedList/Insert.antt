-- ===== src/LinkedList/Insert.antt =====
-- `ll_add_node` in the middle of a valid list.
use neonrt.Base.{
  ◌+◌, ◌^◌, ◌≡◌, ◌≢◌, ◌<◌, refl, sym, ap, false, some, [], ◌∷◌, ◌++◌, arith, ◌==◌, ltb, length,
  length-append,
}
use neonrt.Word.{add_size, sub_size}
use neonrt.Memory.{Ptr, null, LinkedList, list, Heap, write, ok, Allocator}
use neonrt.Memory.Rules.{Holds, load_list-ok, load_node-ok, not_null, Holds-write, Holds-write_ne}
use neonrt.LinkedList.{ll_add_node, insert, ll_gnat_impl, gnat_loop}
use neonrt.LinkedList.Node.{new_ll_node-ok}
use neonrt.LinkedList.Seg.{Nodes, has, ll_node, Seg, cons, Seg-write, not-has, start-ne-null}
use neonrt.LinkedList.Add.{
  IsList, Gives, with_node, initialised, header', chain', back', node', new_out, new-ne-self,
  new-ne-last, self-ne-last,
}
use neonrt.LinkedList.Remove.{has-append}

-- A node of a chain, and the chain after it.
record Link (h : Heap) (stop q w : Ptr) (ys : Nodes) : Type 0 where
  next : Ptr
  at : Holds h q (ll_node next w)
  out : has q ys ≡ false
  rest : Seg h stop next ys

Seg-Link :
    {h : Heap} {stop q w : Ptr} {ys : Nodes} {p : Ptr} (xs : Nodes)
    → Seg h stop p (xs ++ ((q, w) ∷ ys))
    → Link h stop q w ys
Seg-Link [] (cons e fresh s) = record { next = _; at = e; out = fresh; rest = s }
Seg-Link ((p, v) ∷ xs) (cons e fresh s) = Seg-Link xs s

gnat_loop-reaches :
    {h : Heap} {stop p : Ptr} (q w : Ptr) (xs ys : Nodes)
    → Seg h stop p (xs ++ ((q, w) ∷ ys))
    → stop ≢ null
    → gnat_loop (length xs) p h ≡ ok q h
unfolding gnat_loop
gnat_loop-reaches q w [] ys (cons e fresh s) ne = refl
gnat_loop-reaches q w ((p, v) ∷ xs) ys (cons {q = next} e fresh s) ne =
    let more : (next == null) ≡ false = let ne' = start-ne-null s ne in ground arith in
    rw (load_node-ok e, more) (gnat_loop-reaches q w xs ys s ne)

-- Memory once a node is linked in after `q`, and the header written.
abbrev linked_in : Heap → (new next val q w self : Ptr) → LinkedList → Heap
linked_in h new next val q w self l =
    write (write (write h new (some (ll_node next val))) q (some (ll_node new w))) self
      (some (list l))

relinked :
    {h : Heap} {stop q w : Ptr} {ys : Nodes} {p self new v : Ptr} (xs : Nodes) (l l' : LinkedList)
    (val : Ptr)
    → Seg h stop p (xs ++ ((q, w) ∷ ys))
    → (link : Link h stop q w ys) → Holds h self (list l)
    → Holds h new (ll_node null v)
    → has new (xs ++ ((q, w) ∷ ys)) ≡ false
    → Seg (linked_in h new link.next val q w self l') stop p (xs ++ ((q, w) ∷ (new, val) ∷ ys))
relinked {h} {q} {w} {ys} {self} {new} [] l l' val (cons e fresh s) link at node_at out =
    let spare = not-has self link.rest (λ z v' e'. ground (arith, at.at, e')) in
    let ne : q ≢ self = λ z. ground (arith, at.at, e.at, ap h z) in
    let ne' : new ≢ self = λ z. ground (arith, at.at, node_at.at, ap h z) in
    let e1 = Holds-write_ne new (some (ll_node link.next val)) e (ground (arith, out)) in
    cons (Holds-write_ne self _ (Holds-write e1 (ll_node new w)) ne) (ground (arith, out, link.out))
      (cons
        (Holds-write_ne self _
          (Holds-write_ne q _ (Holds-write node_at (ll_node link.next val)) (ground (arith, out)))
          ne')
        (ground (arith, out))
        (Seg-write self _ (Seg-write q _ (Seg-write new _ link.rest (ground (arith, out))) link.out)
          spare))
relinked {h} {q} {w} {ys} {self} {new} ((p, v) ∷ xs) l l' val (cons e fresh s) link at node_at out =
    let split = has-append p xs ((q, w) ∷ ys) in
    let split' = has-append p xs ((q, w) ∷ (new, val) ∷ ys) in
    let ne : p ≢ self = λ z. ground (arith, at.at, e.at, ap h z) in
    cons
      (Holds-write_ne self _
        (Holds-write_ne q _ (Holds-write_ne new _ e (ground (arith, out)))
          (ground (arith, fresh, split)))
        ne)
      (ground (arith, fresh, split, split', out))
      (relinked xs l l' val s link at node_at (ground (arith, out)))

-- On a valid list, an insert at a position from 1 on, up to that of the last node, that gets memory, and
-- with a new length below 2 ^ 64, returns the new length and leaves the valid list with a node for the
-- value at that position, counted from 0.
pub ll_insert_lem :
    (a : Allocator) {h : Heap} {self : Ptr} {l : LinkedList} {v : Ptr} (q w : Ptr) (xs ys : Nodes)
    (val : Ptr)
    → IsList h self l (xs ++ ((q, w) ∷ ys)) v
    → (a.malloc 16 h == null) ≡ false
    → length xs + length ys + 3 < 2 ^ 64
    → Gives
        (ll_add_node a self val insert (length xs + 1) h)
        (length xs + length ys + 3)
        self
        l.last
        (xs ++ ((q, w) ∷ (a.malloc 16 h, val) ∷ ys))
        v
unfolding ll_add_node ll_gnat_impl
ll_insert_lem a {h} {self} {l} {v} q w xs ys val is got room =
    let new = a.malloc 16 h in
    let link = Seg-Link xs (chain' a h is got val 0) in
    let long = length-append xs ((q, w) ∷ ys) in
    let long' = length-append xs ((q, w) ∷ (new, val) ∷ ys) in
    let inside : ltb l.len (length xs + 1) ≡ false = ground (arith, is.count, long) in
    let before : sub_size (length xs + 1) 1 ≡ length xs = ground (arith, room) in
    let more : add_size l.len 1 ≡ length xs + length ys + 3 = ground (arith, is.count, long) in
    let first_ne = start-ne-null is.chain is.back.ne_null in
    let started : (l.first == null) ≡ false = ground arith in
    let out = new_out a h is got val 0 in
    let apart = has-append new xs ((q, w) ∷ ys) in
    let spare : new ≢ q = ground (arith, out, apart) in
    let l' = record l { len = length xs + length ys + 3 } in
    let link2 = Holds-write_ne new (some (ll_node link.next val)) link.at (λ e. spare (sym e)) in
    let ne : q ≢ self = λ e.
      ground
        (arith, (header' a h is got val 0).at, link.at.at, ap (with_node a h is got val 0) e) in
    let split = has-append l.last xs ((q, w) ∷ ys) in
    let split' = has-append l.last xs ((q, w) ∷ (new, val) ∷ ys) in
    let far = new-ne-last a h is got val 0 in
    record {
      after = linked_in (with_node a h is got val 0) new link.next val q w self l';
      first = l.first;
      runs =
          rw
            (
              new_ll_node-ok a h val got,
              got,
              load_list-ok (header' a h is got val 0),
              initialised a h is got val 0,
              load_list-ok (header' a h is got val 0),
              inside,
              started,
              before,
              gnat_loop-reaches q w xs ys (chain' a h is got val 0) is.back.ne_null,
              not_null link.at,
              load_node-ok link.at,
              load_node-ok (node' a h is got val 0),
              load_node-ok link2,
              more,
            )
            refl;
      is = record {
        header =
            Holds-write
              (Holds-write_ne q _
                (Holds-write_ne new _ (header' a h is got val 0)
                  (λ e. new-ne-self a h is got val 0 (sym e)))
                (λ e. ne (sym e)))
              (list l');
        chain =
            relinked xs l l' val (chain' a h is got val 0) link (header' a h is got val 0)
              (node' a h is got val 0) out;
        back =
            Holds-write_ne self _
              (Holds-write_ne q _ (Holds-write_ne new _ (back' a h is got val 0) (λ e. far (sym e)))
                (ground (arith, is.distinct, split)))
              (λ e. self-ne-last a h is got val 0 (sym e));
        distinct = ground (arith, is.distinct, split, split', far);
        count = omega (arith, long');
      };
    }
