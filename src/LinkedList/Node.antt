-- ===== src/LinkedList/Node.antt =====
-- `new_ll_node` with and without memory.
use neonrt.Base.{◌≡◌, refl, true, false, some}
use neonrt.Base.{arith, ◌==◌}
use neonrt.Memory.{Ptr, null, raw, Heap, write, ok, Allocator}
use neonrt.Memory.Rules.{init-ok}
use neonrt.Memory.Rules.{allocate-null, allocate-ok, Holds-allocate}
use neonrt.LinkedList.{new_ll_node}
use neonrt.LinkedList.Seg.{ll_node}

module _ (a : Allocator) (h : Heap) where
  pub new_ll_node-null :
      (val : Ptr) → (a.malloc 16 h == null) ≡ true → new_ll_node a val h ≡ ok null h
  unfolding new_ll_node
  new_ll_node-null val full = rw (allocate-null a 16 h full)

  pub new_ll_node-ok :
      (val : Ptr)
      → (a.malloc 16 h == null) ≡ false
      → new_ll_node a val h
        ≡ ok (a.malloc 16 h) (
            write
              (write h (a.malloc 16 h) (some (raw 16)))
              (a.malloc 16 h)
              (some (ll_node null val)))
  unfolding new_ll_node
  new_ll_node-ok val got =
      rw
        (
          allocate-ok a 16 h got,
          got,
          init-ok (Holds-allocate a 16 h got) (ll_node null val) (omega arith),
        )
        refl
