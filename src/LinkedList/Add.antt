-- ===== src/LinkedList/Add.antt =====
-- `ll_add_node` at the ends of a list that has nodes.
use neonrt.Base.{ℕ, ◌+◌, ◌^◌, ◌≡◌, ◌≢◌, ◌<◌, refl, sym, ap, true, false, none, some}
use neonrt.Base.{[], ◌∷◌, ◌++◌, arith, ◌==◌, length, length-append}
use neonrt.Word.{add_size, size_max}
use neonrt.Memory.{Ptr, null, LinkedList, list, raw, Heap, write, Run, ok, Allocator}
use neonrt.Memory.Rules.{Holds, load_list-ok, load_node-ok, Holds-write, Holds-write_ne}
use neonrt.Memory.Rules.{Holds-allocate, allocate_unused}
use neonrt.LinkedList.{ll_check_init, ll_add_node, prepend, append}
use neonrt.LinkedList.Node.{new_ll_node-null, new_ll_node-ok}
use neonrt.LinkedList.Seg.{
  Nodes, has, ll_node, Seg, cons, Seg-write, not-has, has-snoc, Seg-snoc, start-ne-null,
}

-- `self` is a list with the nodes `front` and a last one that holds `v`.
pub record IsList (h : Heap) (self : Ptr) (l : LinkedList) (front : Nodes) (v : Ptr) : Type 0 where
  pub header : Holds h self (list l)
  pub chain : Seg h l.last l.first front
  pub back : Holds h l.last (ll_node null v)
  pub distinct : has l.last front ≡ false
  pub count : l.len ≡ length front + 1

-- The nodes of a list, first to last.
abbrev pub nodes : LinkedList → Nodes → Ptr → Nodes
nodes l front v = front ++ ((l.last, v) ∷ [])

-- A run of an `ll_add_node` that returns the new length and leaves the list `front` with the last
-- payload `v` at the node `last`.
pub record Gives (r : Run ℕ) (len : ℕ) (self last : Ptr) (front : Nodes) (v : Ptr) : Type 0 where
  pub after : Heap
  pub first : Ptr
  pub runs : r ≡ ok len after
  pub is : IsList after self (record { first = first; last = last; len = len }) front v

module _ (a : Allocator) (h : Heap) where
  -- Where memory is exhausted `ll_add_node` returns the greatest `size_t` and changes nothing.
  pub ll_add_node-null :
      (self val : Ptr) (pos : ℕ)
      → a.malloc 16 h ≡ null
      → (ll_add_node a self val append pos h ≡ ok size_max h)
        × (ll_add_node a self val prepend pos h ≡ ok size_max h)
  unfolding ll_add_node
  ll_add_node-null self val pos full =
      let e = new_ll_node-null a h val (ground arith) in (rw e, rw e)

  module _ {self : Ptr} {l : LinkedList} {front : Nodes} {v : Ptr} (is : IsList h self l front v)
      (got : (a.malloc 16 h == null) ≡ false) (val : Ptr) (pos : ℕ) where
    abbrev pub new_node : Ptr
    new_node = a.malloc 16 h

    abbrev pub with_node : Heap
    with_node = write (write h new_node (some (raw 16))) new_node (some (ll_node null val))

    pub initialised : ll_check_init l ≡ true
    initialised =
        let first = start-ne-null is.chain is.back.ne_null in
        ground (arith, is.count, is.back.ne_null, first)

    pub unused : h new_node ≡ none
    unused = allocate_unused a 16 h got

    pub new-ne-self : new_node ≢ self
    new-ne-self e = ground (arith, unused, is.header.at, ap h e)

    pub new-ne-last : new_node ≢ l.last
    new-ne-last e = ground (arith, unused, is.back.at, ap h e)

    pub header' : Holds with_node self (list l)
    header' =
        Holds-write_ne new_node _ (Holds-write_ne new_node _ is.header (λ e. new-ne-self (sym e)))
          (λ e. new-ne-self (sym e))

    pub new_out : has new_node front ≡ false
    new_out = not-has new_node is.chain (λ q w e. ground (arith, unused, e))

    pub back' : Holds with_node l.last (ll_node null v)
    back' =
        Holds-write_ne new_node _ (Holds-write_ne new_node _ is.back (λ e. new-ne-last (sym e)))
          (λ e. new-ne-last (sym e))

    pub chain' : Seg with_node l.last l.first front
    chain' = Seg-write new_node _ (Seg-write new_node _ is.chain new_out) new_out

    pub node' : Holds with_node new_node (ll_node null val)
    node' = Holds-write (Holds-allocate a 16 h got) (ll_node null val)

    pub self-ne-last : self ≢ l.last
    self-ne-last e = ground (arith, is.header.at, is.back.at, ap h e)

    abbrev pub appended : Heap
    appended =
        write (write with_node l.last (some (ll_node new_node v))) self
          (some (list (record { first = l.first; last = new_node; len = add_size l.len 1 })))

    pub ll_add_node-append : ll_add_node a self val append pos h ≡ ok (add_size l.len 1) appended
    unfolding ll_add_node
    ll_add_node-append =
        rw
          (
            new_ll_node-ok a h val got,
            got,
            load_list-ok header',
            initialised,
            load_list-ok header',
            load_node-ok back',
          )
          refl

    relinked :
        Seg (write with_node l.last (some (ll_node new_node v))) new_node l.first (nodes l front v)
    relinked =
        Seg-snoc new_node v (Seg-write l.last _ chain' is.distinct)
          (Holds-write back' (ll_node new_node v)) is.distinct new_out new-ne-last

    header2 : Holds (write with_node l.last (some (ll_node new_node v))) self (list l)
    header2 = Holds-write_ne l.last _ header' self-ne-last

    count2 : length front + 2 < 2 ^ 64 → add_size l.len 1 ≡ length (nodes l front v) + 1
    count2 room = ground (arith, is.count, length-append front ((l.last, v) ∷ []))

    pub appended-IsList :
        length front + 2 < 2 ^ 64
        → IsList appended self
            (record { first = l.first; last = new_node; len = add_size l.len 1 })
            (nodes l front v)
            val
    appended-IsList room = record {
      header = Holds-write header2 _;
      chain =
          Seg-write self _ relinked
            (not-has self relinked (λ q w e. ground (arith, header2.at, e)));
      back = Holds-write_ne self _ (Holds-write_ne l.last _ node' new-ne-last) new-ne-self;
      distinct = has-snoc new_node l.last v front new_out new-ne-last;
      count = count2 room;
    }

    abbrev prepended : Heap
    prepended =
        write (write with_node new_node (some (ll_node l.first val))) self
          (some (list (record { first = new_node; last = l.last; len = add_size l.len 1 })))

    ll_add_node-prepend : ll_add_node a self val prepend pos h ≡ ok (add_size l.len 1) prepended
    unfolding ll_add_node
    ll_add_node-prepend =
        rw
          (
            new_ll_node-ok a h val got,
            got,
            load_list-ok header',
            initialised,
            load_list-ok header',
            load_node-ok node',
          )
          refl

    header3 : Holds (write with_node new_node (some (ll_node l.first val))) self (list l)
    header3 = Holds-write_ne new_node _ header' (λ e. new-ne-self (sym e))

    chain3 :
        Seg
          (write with_node new_node (some (ll_node l.first val)))
          l.last
          new_node
          ((new_node, val) ∷ front)
    chain3 =
        cons (Holds-write node' (ll_node l.first val)) new_out (Seg-write new_node _ chain' new_out)

    prepended-IsList :
        length front + 2 < 2 ^ 64
        → IsList prepended self
            (record { first = new_node; last = l.last; len = add_size l.len 1 })
            ((new_node, val) ∷ front)
            v
    prepended-IsList room = record {
      header = Holds-write header3 _;
      chain =
          Seg-write self _ chain3 (not-has self chain3 (λ q w e. ground (arith, header3.at, e)));
      back =
          Holds-write_ne self _ (Holds-write_ne new_node _ back' (λ e. new-ne-last (sym e)))
            (λ e. self-ne-last (sym e));
      distinct = ground (arith, is.distinct, new-ne-last);
      count = ground (arith, is.count);
    }

  -- On a valid list that has nodes, and whose new length is below 2 ^ 64, an append that gets memory
  -- returns the new length and leaves the valid list with a node for the value after the others; a
  -- prepend likewise leaves the list with that node before the others.
  pub ll_add_node_lem :
      {self : Ptr} {l : LinkedList} {front : Nodes} {v : Ptr} (val : Ptr) (pos : ℕ)
      → IsList h self l front v
      → (a.malloc 16 h == null) ≡ false
      → length front + 2 < 2 ^ 64
      → Gives
          (ll_add_node a self val append pos h)
          (length front + 2)
          self
          (a.malloc 16 h)
          (nodes l front v)
          val
        × Gives
            (ll_add_node a self val prepend pos h)
            (length front + 2)
            self
            l.last
            ((a.malloc 16 h, val) ∷ front)
            v
  ll_add_node_lem {self} {l} {front} {v} val pos is got room =
      let len2 : add_size l.len 1 ≡ length front + 2 = ground (arith, is.count) in
      rw (sym len2) (
        record {
          after = appended is got val pos;
          first = l.first;
          runs = ll_add_node-append is got val pos;
          is = appended-IsList is got val pos room;
        },
        record {
          after = prepended is got val pos;
          first = a.malloc 16 h;
          runs = ll_add_node-prepend is got val pos;
          is = prepended-IsList is got val pos room;
        },
      )
