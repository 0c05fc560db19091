-- ===== src/LinkedList/Empty.antt =====
-- `ll_add_node` on a list that has no node, and `new_dll_node`.
use neonrt.Base.{
  ℕ, suc, ◌≡◌, ◌≢◌, refl, sym, ap, inl, inr, Bool-cases, if◌then◌else◌, false, some, arith, ◌==◌,
}
use neonrt.Memory.{Ptr, null, list, dnode, raw, Heap, write, Run, ok, fault, Allocator}
use neonrt.Memory.Rules.{
  Holds, not_null, load_list-ok, load_node-ok, free-ok, Holds-write, Holds-write_ne,
}
use neonrt.Memory.Rules.{
  Holds-allocate, allocate-null, allocate-ok, init-fault, allocate_unused, load_node-none,
}
use neonrt.LinkedList.{ll_add_node, prepend, append, ll_free, free_loop, new_dll_node}
use neonrt.LinkedList.Seg.{ll_node}
use neonrt.LinkedList.Node.{new_ll_node-ok}

-- A run that returns 2 and leaves the one node `new` at both ends of the list, with itself as its
-- successor, so that `ll_free` reads it after it is freed.
pub record Loops (r : Run ℕ) (self new val : Ptr) : Type 0 where
  pub after : Heap
  pub runs : r ≡ ok 2 after
  pub header : Holds after self (list (record { first = new; last = new; len = 2 }))
  pub itself : Holds after new (ll_node new val)
  pub freed : (rounds : ℕ) → ll_free (suc (suc rounds)) self after ≡ fault

module _ (a : Allocator) (h : Heap) where
  module _ {self : Ptr}
      (empty : Holds h self (list (record { first = null; last = null; len = 0 })))
      (got : (a.malloc 16 h == null) ≡ false) (val : Ptr) (pos : ℕ) where
    abbrev looped : Heap
    looped =
        let new = a.malloc 16 h in
        let h1 = write (write h new (some (raw 16))) new (some (ll_node null val)) in
        let h2 = write h1 self (some (list (record { first = new; last = new; len = 1 }))) in
        write (write h2 new (some (ll_node new val))) self
          (some (list (record { first = new; last = new; len = 2 })))

    new-ne-empty : self ≢ a.malloc 16 h
    new-ne-empty e = ground (arith, allocate_unused a 16 h got, empty.at, ap h e)

    add_to_empty :
        (ll_add_node a self val append pos h ≡ ok 2 looped)
        × (ll_add_node a self val prepend pos h ≡ ok 2 looped)
    unfolding ll_add_node
    add_to_empty =
        let node0 = Holds-write (Holds-allocate a 16 h got) (ll_node null val) in
        let self0 =
          Holds-write_ne (a.malloc 16 h) (some (ll_node null val))
            (Holds-write_ne (a.malloc 16 h) (some (raw 16)) empty new-ne-empty) new-ne-empty in
        let one = list (record { first = a.malloc 16 h; last = a.malloc 16 h; len = 1 }) in
        let self1 = Holds-write self0 one in
        let node1 = Holds-write_ne self (some one) node0 (λ e. new-ne-empty (sym e)) in
        rw
          (
            new_ll_node-ok a h val got,
            got,
            load_list-ok self0,
            load_list-ok self1,
            load_node-ok node1,
          )
          (refl, refl)

    header' :
        Holds looped self (list (record { first = a.malloc 16 h; last = a.malloc 16 h; len = 2 }))
    unfolding write
    header' = ground (arith, empty.ne_null)

    node' : Holds looped (a.malloc 16 h) (ll_node (a.malloc 16 h) val)
    unfolding write
    node' = ground (arith, new-ne-empty)

    looped-Loops : (r : Run ℕ) → r ≡ ok 2 looped → Loops r self (a.malloc 16 h) val
    unfolding ll_free free_loop
    looped-Loops r runs = record {
      after = looped;
      runs = runs;
      header = header';
      itself = node';
      freed = λ rounds.
          rw
            (
              load_list-ok header',
              not_null node',
              load_node-ok node',
              free-ok node',
              not_null node',
              load_node-none looped (a.malloc 16 h),
            )
            refl;
    }

  -- The first node of an empty list, appended or prepended with memory at hand, becomes its own
  -- successor: the length is 2, and `ll_free` reads the node after it has freed it.
  pub ll_add_node-empty :
      {self : Ptr} (val : Ptr) (pos : ℕ)
      → Holds h self (list (record { first = null; last = null; len = 0 }))
      → (a.malloc 16 h == null) ≡ false
      → Loops (ll_add_node a self val append pos h) self (a.malloc 16 h) val
        × Loops (ll_add_node a self val prepend pos h) self (a.malloc 16 h) val
  ll_add_node-empty val pos empty got =
      let (e, e') = add_to_empty empty got val pos in
      (looped-Loops empty got val pos _ e, looped-Loops empty got val pos _ e')

  -- A doubly linked node does not fit in the block that `new_dll_node` allocates for it: the program
  -- writes past the block, unless memory is exhausted and the result is a null pointer.
  pub new_dll_node_lem :
      (val : Ptr) → new_dll_node a val h ≡ (if a.malloc 16 h == null then ok null h else fault)
  unfolding new_dll_node
  new_dll_node_lem val = elim (Bool-cases (a.malloc 16 h == null)) [
    | inl e ↦ rw (allocate-null a 16 h e, e) refl
    | inr e ↦
        rw
          (
            allocate-ok a 16 h e,
            e,
            init-fault (Holds-allocate a 16 h e)
                (dnode (record { next = null; prev = null; dt_ptr = val })) (omega arith),
          )
          refl
  ]
