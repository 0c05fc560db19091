-- ===== src/HashMap/Walk.antt =====
-- The way that `hmap_rehash` goes along the list of a bucket.
use neonrt.Base.{ℕ, ◌≡◌, ◌≢◌, refl, ap, none, List, [], ◌∷◌, ◌++◌, arith}
use neonrt.Memory.{Ptr, null, linked, Heap}
use neonrt.Memory.Rules.{Holds}
use neonrt.Memory.Frame.{Frame}
use neonrt.Buffer.Rules.{KeyAt}
use neonrt.LinkedList.Seg.{Nodes, ll_node, Seg, nil, cons}
use neonrt.HashMap.Slot.{Entry, Entries, none_left, entry, Owned, Holds-Frame, KeyAt-Frame}

-- From `p` nodes that belong to `j` lead through the entries to the end of a list.
pub data Walk (h : Heap) (own : Ptr → ℕ) (j : ℕ) : Ptr → List Entry → Type 0 where
  done : Walk h own j null []
  step :
      {p q e kp v : Ptr} {key : List ℕ} {es : List Entry}
      → own p ≡ j
      → Holds h p (ll_node q e)
      → Holds h e (linked (record { key = kp; value = v }))
      → KeyAt h kp key
      → Walk h own j q es
      → Walk h own j p ((key, v) ∷ es)

-- A change that spares the nodes of `j` leaves the way.
pub Walk-Frame :
    {h h' : Heap} {self last : Ptr} (own own' : Ptr → ℕ) (j : ℕ) {p : Ptr} {es : List Entry}
    → Frame h h' self last
    → (last ≢ null → own last ≢ j)
    → ((a : Ptr) → h a ≢ none → own a ≡ j → own' a ≡ j)
    → Walk h own j p es
    → Walk h' own' j p es
Walk-Frame own own' j f spare follow done = done
Walk-Frame {h} {h'} {last} own own' j f spare follow (step {p} {q} {e} o node pair key_at rest) =
    let other : p ≢ last = λ t. ground (arith, spare, node.ne_null, o, ap own t) in
    let node' : Holds h' p (ll_node q e) = record {
      ne_null = node.ne_null;
      at = f.end p _ other node.at;
    } in
    step (follow p (ground (arith, node.at)) o) node' (Holds-Frame f pair refl)
      (KeyAt-Frame f key_at) (Walk-Frame own own' j f spare follow rest)

-- The list of a bucket is such a way.
pub Seg-Walk :
    {h : Heap} (own : Ptr → ℕ) (j : ℕ) {last p : Ptr} {front : Nodes} {v : Ptr} {es : List Entry}
    → Seg h last p front
    → Holds h last (ll_node null v)
    → Entries h (front ++ ((last, v) ∷ [])) es
    → Owned own j (front ++ ((last, v) ∷ []))
    → Walk h own j p es
Seg-Walk own j nil back (entry pair key_at none_left) owned = step owned.0 back pair key_at done
Seg-Walk own j (cons node fresh s) back (entry pair key_at rest) owned =
    step owned.0 node pair key_at (Seg-Walk own j s back rest owned.3)
