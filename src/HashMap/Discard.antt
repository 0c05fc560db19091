-- ===== src/HashMap/Discard.antt =====
-- How `hmap_free_buckets` frees the list of one bucket.
use neonrt.Base.{
  ℕ, zero, suc, ◌+◌, ◌≡◌, ◌≢◌, ◌<◌, refl, ap, ◌∙◌, Bool, true, false, ◌||◌, Option, none, some,
  List, [], ◌∷◌, ◌++◌, arith, ◌==◌, if◌then◌else◌, length,
}
use neonrt.Memory.{
  Ptr, null, HmapLinkedNode, LinkedList, Object, node, list, linked, Heap, write, ok,
}
use neonrt.Memory.Rules.{Holds, not_null, load_node-ok, free-ok, Holds-write_ne}
use neonrt.LinkedList.{ll_free}
use neonrt.LinkedList.Seg.{Nodes, has, has-append, ll_node, Seg, nil, cons, Seg-write, not-has}
use neonrt.LinkedList.Add.{IsList, nodes}
use neonrt.LinkedList.Free.{ll_free_lem}
use neonrt.HashMap.Resize.{free_entries}
use neonrt.HashMap.Slot.{Entry, Entries, none_left, entry, carries, Owned}

-- Each payload is an entry of a map.
abbrev Paid : Heap → Nodes → Type 0
Paid h [] = Unit {0}
Paid h ((p, e) ∷ xs) = ((n : HmapLinkedNode) × Holds h e (linked n)) × Paid h xs

Entries-Paid : {h : Heap} {xs : Nodes} {es : List Entry} → Entries h xs es → Paid h xs
Entries-Paid none_left = tt
Entries-Paid (entry pair key_at rest) = ((_, pair), Entries-Paid rest)

Paid-write :
    (h : Heap) (a : Ptr) (xs : Nodes) → carries a xs ≡ false → Paid h xs → Paid (write h a none) xs
Paid-write h a [] out paid = tt
Paid-write h a ((p, e) ∷ xs) out ((n, pair), rest) =
    ((n, Holds-write_ne a none pair (ground arith)), Paid-write h a xs (ground arith) rest)

-- Memory without the payloads of the nodes given.
abbrev pub unpaid : Nodes → Heap → Heap
unpaid [] h = h
unpaid ((p, e) ∷ xs) h = unpaid xs (write h e none)

write_at :
    (h : Heap) (p : Ptr) (c : Option Object) (a : Ptr) → write h p c a ≡ (if a == p then c else h a)
unfolding write
write_at h p c a = refl

pub unpaid_at :
    (xs : Nodes) (h : Heap) (a : Ptr) → unpaid xs h a ≡ (if carries a xs then none else h a)
unpaid_at [] h a = refl
unpaid_at ((p, e) ∷ xs) h a = ground (arith, unpaid_at xs (write h e none) a, write_at h e none a)

-- The entries along a chain and at the node that it leads to are freed.
free_entries-Seg :
    (own : Ptr → ℕ) (k rounds : ℕ) {h : Heap} {stop p v : Ptr} {xs : Nodes}
    → Seg h stop p xs
    → Holds h stop (ll_node null v)
    → Paid h (xs ++ ((stop, v) ∷ []))
    → Owned own k (xs ++ ((stop, v) ∷ []))
    → length xs + 1 < rounds
    → free_entries rounds p h ≡ ok tt (unpaid (xs ++ ((stop, v) ∷ [])) h)
unfolding free_entries
free_entries-Seg own k zero s back paid owned few = absurd (omega arith)
free_entries-Seg own k (suc zero) s back paid owned few = absurd (omega arith)
free_entries-Seg own k (suc (suc rounds)) nil back paid owned few =
    rw (not_null back, load_node-ok back, free-ok paid.0.1) refl
free_entries-Seg own k (suc (suc rounds)) {h} {stop} {v} (cons {q} {v = e} {xs} at fresh s) back
      ((n, pair), paid) (o, o', distinct, owned) few =
    let out : has e xs ≡ false = not-has e s (λ q' w z. ground (arith, z, pair.at)) in
    let other : stop ≢ e = λ z. ground (arith, back.at, pair.at, ap h z) in
    rw (not_null at, load_node-ok at, free-ok pair)
      (free_entries-Seg own k (suc rounds) (Seg-write e none s out)
        (Holds-write_ne e none back other) (Paid-write h e (xs ++ ((stop, v) ∷ [])) distinct paid)
        owned (omega (arith, few)))

-- Objects of lists, and entries.
abbrev pub is_cell : Object → Bool
is_cell (node n) = true
is_cell (list l) = true
is_cell (linked n) = true
is_cell _ = false

Paid-carries :
    (h : Heap) (xs : Nodes) (a : Ptr)
    → Paid h xs
    → ((n : HmapLinkedNode) → h a ≢ some (linked n))
    → carries a xs ≡ false
Paid-carries h [] a paid other = refl
Paid-carries h ((p, e) ∷ xs) a ((n, pair), rest) other =
    let ne : a ≢ e = λ z. other n (ap h z ∙ pair.at) in
    ground (arith, Paid-carries h xs a rest other)

Seg-same :
    {h h' : Heap} {stop p : Ptr} {xs : Nodes}
    → ((a q w : Ptr) → h a ≡ some (ll_node q w) → h' a ≡ h a)
    → Seg h stop p xs
    → Seg h' stop p xs
Seg-same f nil = nil
Seg-same f (cons {p} {q} {v} at fresh s) =
    cons (record { ne_null = at.ne_null; at = f p q v at.at ∙ at.at }) fresh (Seg-same f s)

module _ (own : Ptr → ℕ) (k rounds : ℕ) {h : Heap} {self : Ptr} {l : LinkedList} {front : Nodes}
    {v : Ptr} {es : List Entry} (is : IsList h self l front v)
    (entries : Entries h (nodes l front v) es) (owned : Owned own k (nodes l front v))
    (few : length front + 1 < rounds) where
  -- Memory without the list and its entries.
  abbrev pub discarded : Heap
  discarded a =
      if (a == self) || has a (nodes l front v) then none else unpaid (nodes l front v) h a

  pub free_entries-ok : free_entries rounds l.first h ≡ ok tt (unpaid (nodes l front v) h)
  free_entries-ok = free_entries-Seg own k rounds is.chain is.back (Entries-Paid entries) owned few

  spared :
      (a : Ptr)
      → ((n : HmapLinkedNode) → h a ≢ some (linked n))
      → unpaid (nodes l front v) h a ≡ h a
  spared a other =
      let out = Paid-carries h (nodes l front v) a (Entries-Paid entries) other in
      unpaid_at (nodes l front v) h a ∙ rw out refl

  still-IsList : IsList (unpaid (nodes l front v) h) self l front v
  still-IsList = record {
    header = record {
      ne_null = is.header.ne_null;
      at = spared self (λ n e. ground (arith, e, is.header.at)) ∙ is.header.at;
    };
    chain = Seg-same (λ a q w e. spared a (λ n e'. ground (arith, e, e'))) is.chain;
    back = record {
      ne_null = is.back.ne_null;
      at = spared l.last (λ n e. ground (arith, e, is.back.at)) ∙ is.back.at;
    };
    distinct = is.distinct;
    count = is.count;
  }

  pub ll_free-ok : ll_free rounds self (unpaid (nodes l front v) h) ≡ ok tt discarded
  ll_free-ok = ll_free_lem still-IsList rounds few

  -- Anything that is not of a list stays.
  pub discarded_kept :
      (a : Ptr) (o : Object) → is_cell o ≡ false → h a ≡ some o → discarded a ≡ some o
  discarded_kept a o kind e =
      let out : has a (nodes l front v) ≡ false = ground (
        arith,
        has-append a l.last v front,
        not-has a is.chain (λ q w z. ground (arith, e, z)),
        is.back.at,
        e,
        (λ (z : a ≡ l.last). ap h z),
      ) in
      let ne : (a == self) ≡ false = ground (arith, is.header.at, e, (λ (z : a ≡ self). ap h z)) in
      rw (ne, out) (spared a (λ n z. ground (arith, e, z)) ∙ e)
