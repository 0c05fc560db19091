-- ===== src/LinkedList/Seg.antt =====
-- The nodes of a list in memory: the chain from one address to another.
use neonrt.Base.{◌≡◌, ◌≢◌, refl, Bool, false, ◌||◌, Option, some, List, [], ◌∷◌, ◌++◌, arith, ◌==◌}
use neonrt.Memory.{Ptr, null, Object, node, Heap, write}
use neonrt.Memory.Rules.{Holds, Holds-write_ne}

-- Address and payload of each node, in order.
abbrev pub Nodes : Type 0
Nodes = List (Ptr × Ptr)

abbrev pub has : Ptr → Nodes → Bool
has a [] = false
has a ((p, v) ∷ xs) = (a == p) || has a xs

abbrev pub ll_node : Ptr → Ptr → Object
ll_node next payload = node (record { next = next; payload = payload })

-- From `p` the `next` pointers lead through the distinct nodes `xs` to `stop`.
pub data Seg (h : Heap) (stop : Ptr) : Ptr → Nodes → Type 0 where
  nil : Seg h stop stop []
  cons :
      {p q v : Ptr} {xs : Nodes}
      → Holds h p (ll_node q v)
      → has p xs ≡ false
      → Seg h stop q xs
      → Seg h stop p ((p, v) ∷ xs)

pub has-snoc :
    (a p v : Ptr) (xs : Nodes) → has a xs ≡ false → a ≢ p → has a (xs ++ ((p, v) ∷ [])) ≡ false
has-snoc a p v [] out ne = ground arith
has-snoc a p v ((q, w) ∷ xs) out ne = ground (arith, has-snoc a p v xs)

pub has-append : (a p v : Ptr) (xs : Nodes) → has a (xs ++ ((p, v) ∷ [])) ≡ (has a xs || (a == p))
has-append a p v [] = ground arith
has-append a p v ((q, w) ∷ xs) = ground (arith, has-append a p v xs)

module _ {h : Heap} where
  -- A write outside the chain leaves it.
  pub Seg-write :
      {stop p : Ptr} {xs : Nodes} (a : Ptr) (c : Option Object)
      → Seg h stop p xs
      → has a xs ≡ false
      → Seg (write h a c) stop p xs
  Seg-write a c nil out = nil
  Seg-write a c (cons {p} e fresh s) out =
      cons (Holds-write_ne a c e (ground arith)) fresh (Seg-write a c s (ground arith))

  -- An address that holds something other than a node of lists is not in the chain.
  pub not-has :
      {stop p : Ptr} {xs : Nodes} (a : Ptr)
      → Seg h stop p xs
      → ((q v : Ptr) → h a ≢ some (ll_node q v))
      → has a xs ≡ false
  not-has a nil other = refl
  not-has a (cons {p} {q} {v} e fresh s) other = ground (arith, e.at, other q v, not-has a s other)

  -- A node after the chain, and not in it, extends it.
  pub Seg-snoc :
      {last p : Ptr} {xs : Nodes} (q v : Ptr)
      → Seg h last p xs
      → Holds h last (ll_node q v)
      → has last xs ≡ false
      → has q xs ≡ false
      → q ≢ last
      → Seg h q p (xs ++ ((last, v) ∷ []))
  Seg-snoc q v nil e out out' ne = cons e refl nil
  Seg-snoc q v (cons {p} e' fresh s) e out out' ne =
      cons e' (has-snoc p _ v _ fresh (ground arith))
        (Seg-snoc q v s e (ground arith) (ground arith) ne)

  -- A chain starts at its end or at a node.
  pub start-ne-null : {stop p : Ptr} {xs : Nodes} → Seg h stop p xs → stop ≢ null → p ≢ null
  start-ne-null nil ne = ne
  start-ne-null (cons e fresh s) ne = e.ne_null
