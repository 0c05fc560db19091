-- ===== src/HashMap/Freed.antt =====
-- What is left of memory when the lists of some buckets are freed.
use neonrt.Base.{
  ℕ, ◌+◌, ◌≡◌, ◌≢◌, ◌≤◌, ◌<◌, refl, ap, ◌∙◌, Bool, true, false, ◌||◌, not, none, some, List, [],
  ◌∷◌, ◌++◌, arith, ltb, length,
}
use neonrt.Memory.{Ptr, HmapBucket, Object, Heap}
use neonrt.Memory.Rules.{Holds}
use neonrt.Buffer.Rules.{KeyAt}
use neonrt.LinkedList.Seg.{Nodes, has, Seg, nil, cons}
use neonrt.LinkedList.Add.{IsList, nodes}
use neonrt.HashMap.Slot.{
  Entry, Entries, none_left, entry, Slot, vacant, single, chain, carries, Owned, Holding,
}
use neonrt.HashMap.Represent.{Owned-last, Contents, Table}
use neonrt.HashMap.Discard.{is_cell, unpaid_at, discarded, discarded_kept}

-- Numbers below `lo`, and from `hi` on.
abbrev pub outside : ℕ → ℕ → ℕ → Bool
outside lo hi n = ltb n lo || not (ltb n hi)

-- From `h` to `h'` no more has been freed than parts of the lists that belong to the numbers from `lo`
-- up to `hi`.
pub record Freed (own : Ptr → ℕ) (lo hi : ℕ) (h h' : Heap) : Type 0 where
  pub kept : (a : Ptr) (o : Object) → is_cell o ≡ false → h a ≡ some o → h' a ≡ some o
  pub other : (a : Ptr) → outside lo hi (own a) ≡ true → h' a ≡ h a
  pub unused : (a : Ptr) → h a ≡ none → h' a ≡ none

pub Freed-trans :
    {own : Ptr → ℕ} {lo mid hi : ℕ} {h h' h'' : Heap}
    → lo ≤ mid
    → mid ≤ hi
    → Freed own lo mid h h'
    → Freed own mid hi h' h''
    → Freed own lo hi h h''
Freed-trans le le' f f' = record {
  kept = λ a o kind e. f'.kept a o kind (f.kept a o kind e);
  other = λ a out. f'.other a (ground (arith, le, out)) ∙ f.other a (ground (arith, le', out));
  unused = λ a e. f'.unused a (f.unused a e);
}

-- The list of a bucket is no longer in use.
abbrev pub Vanished : Heap → Nodes → Type 0
Vanished h [] = Unit {0}
Vanished h ((p, e) ∷ xs) = (h p ≡ none) × (h e ≡ none) × Vanished h xs

abbrev pub Gone :
    (g : Heap) {h : Heap} {b : HmapBucket} {self last : Ptr} {es : List Entry}
    → Slot h b self last es
    → Type 0
Gone g (vacant s l plain empty bare) = Unit {0}
Gone g (single s l plain key_at is) = Unit {0}
Gone g (chain {self} {v} {l} {front} complex head end is entries) =
    (g self ≡ none) × Vanished g (nodes l front v)

Vanished-map :
    {g g' : Heap} (xs : Nodes)
    → ((a : Ptr) → g a ≡ none → g' a ≡ none)
    → Vanished g xs
    → Vanished g' xs
Vanished-map [] f gone = tt
Vanished-map ((p, e) ∷ xs) f (n, n', gone) = (f p n, f e n', Vanished-map xs f gone)

pub Gone-map :
    {g g' h : Heap} {b : HmapBucket} {self last : Ptr} {es : List Entry} (s : Slot h b self last es)
    → ((a : Ptr) → g a ≡ none → g' a ≡ none)
    → Gone g s
    → Gone g' s
Gone-map (vacant s l plain empty bare) f gone = tt
Gone-map (single s l plain key_at is) f gone = tt
Gone-map (chain {self} {v} {l} {front} complex head end is entries) f (n, gone) =
    (f self n, Vanished-map (nodes l front v) f gone)

module _ {own : Ptr → ℕ} {lo hi : ℕ} {h h' : Heap} (f : Freed own lo hi h h') where
  pub KeyAt-Freed : {p : Ptr} {key : List ℕ} → KeyAt h p key → KeyAt h' p key
  KeyAt-Freed k = record {
    struct = k.struct;
    bytes = k.bytes;
    is = record {
      struct = record { ne_null = k.is.struct.ne_null; at = f.kept _ _ refl k.is.struct.at };
      stored = record { ne_null = k.is.stored.ne_null; at = f.kept _ _ refl k.is.stored.at };
      len_in = k.is.len_in;
    };
    holds = k.holds;
    unlocked = k.unlocked;
  }

  module _ (j : ℕ) (out : outside lo hi j ≡ true) where
    Holds-Freed : {p : Ptr} {o : Object} → own p ≡ j → Holds h p o → Holds h' p o
    Holds-Freed {p} at e = record { ne_null = e.ne_null; at = f.other p (rw at out) ∙ e.at }

    Entries-Freed :
        {xs : Nodes} {es : List Entry} → Entries h xs es → Owned own j xs → Entries h' xs es
    Entries-Freed none_left owned = none_left
    Entries-Freed (entry pair k rest) (o, o', fresh, owned) =
        entry (Holds-Freed o' pair) (KeyAt-Freed k) (Entries-Freed rest owned)

    Seg-Freed :
        {stop p : Ptr} (v : Ptr) {xs : Nodes}
        → Seg h stop p xs
        → Owned own j (xs ++ ((stop, v) ∷ []))
        → Seg h' stop p xs
    Seg-Freed v nil owned = nil
    Seg-Freed v (cons at fresh s) (o, o', distinct, owned) =
        cons (Holds-Freed o at) fresh (Seg-Freed v s owned)

    -- A bucket whose list belongs to another number keeps it.
    pub Slot-Freed :
        {b : HmapBucket} {p q : Ptr} {es : List Entry} (s : Slot h b p q es)
        → Holding own j s
        → (s' : Slot h' b p q es) × ((own' : Ptr → ℕ) (k : ℕ)
            → Holding own' k s
            → Holding own' k s')
          × ((g : Heap) → Gone g s' → Gone g s)
    Slot-Freed (vacant s l plain empty bare) held =
        (vacant s l plain empty bare, λ own' k o. o, λ g n. n)
    Slot-Freed (single s l plain k value) held =
        (single s l plain (KeyAt-Freed k) value, λ own' k o. o, λ g n. n)
    Slot-Freed (chain {v} {l} {front} complex head end is es) (o, owned) = (
      chain complex head end
          (record {
            header = Holds-Freed o is.header;
            chain = Seg-Freed v is.chain owned;
            back = Holds-Freed (Owned-last own j l.last v front owned) is.back;
            distinct = is.distinct;
            count = is.count;
          })
          (Entries-Freed es owned),
      λ own' k o. o,
      λ g n. n,
    )

  -- So does an array whose lists all belong to other numbers.
  pub Table-Freed :
      {bs : List HmapBucket} {n base : ℕ} {contents : Contents}
      → ((i : ℕ) → i < n → outside lo hi (base + i) ≡ true)
      → Table h bs n base own contents
      → Table h' bs n base own contents
  Table-Freed {base} out t = record {
    sized = t.sized;
    headers = t.headers;
    ends = t.ends;
    places = λ i lt.
        let p = t.places i lt in
        let (s, keep, gone) = Slot-Freed (base + i) (out i lt) p.slot p.owned in
        record {
          bucket = p.bucket;
          found = p.found;
          slot = s;
          owned = keep own (base + i) p.owned;
        };
  }

Owned-out :
    (own : Ptr → ℕ) (k : ℕ) (xs : Nodes) (a : Ptr)
    → Owned own k xs
    → own a ≢ k
    → (has a xs ≡ false) × (carries a xs ≡ false)
Owned-out own k [] a owned ne = (refl, refl)
Owned-out own k ((p, e) ∷ xs) a (o, o', fresh, owned) ne =
    let rest = Owned-out own k xs a owned ne in
    let n : a ≢ p = λ z. ne (ap own z ∙ o) in
    let n' : a ≢ e = λ z. ne (ap own z ∙ o') in (ground (arith, rest.0), ground (arith, rest.1))

Vanished-all :
    (g : Heap) (xs : Nodes)
    → ((a : Ptr) → has a xs ≡ true → g a ≡ none)
    → ((a : Ptr) → carries a xs ≡ true → g a ≡ none)
    → Vanished g xs
Vanished-all g [] f f' = tt
Vanished-all g ((p, e) ∷ xs) f f' = (
  f p (ground arith),
  f' e (ground arith),
  Vanished-all g xs (λ a t. f a (ground arith)) (λ a t. f' a (ground arith)),
)

module _ (own : Ptr → ℕ) (k rounds : ℕ) {h : Heap} {self : Ptr} {l : _} {front : Nodes} {v : Ptr}
    {es : List Entry} (is : IsList h self l front v) (entries : Entries h (nodes l front v) es)
    (owned : Owned own k (nodes l front v)) (few : length front + 1 < rounds) where
  abbrev pub left_over : Heap
  left_over = discarded own k rounds is entries owned few

  left_at : (a : Ptr) → carries a (nodes l front v) ≡ true → left_over a ≡ none
  left_at a t = ground (arith, unpaid_at (nodes l front v) h a)

  -- Freeing the list of a bucket is that.
  pub discarded-Freed :
      own self ≡ k
      → Freed own k (k + 1) h left_over
        × (left_over self ≡ none)
        × Vanished left_over (nodes l front v)
  discarded-Freed o = (
    record {
      kept = discarded_kept own k rounds is entries owned few;
      other = λ a out.
          let ne : own a ≢ k = ground arith in
          let (n, n') = Owned-out own k (nodes l front v) a owned ne in
          let other_self : a ≢ self = λ z. ne (ap own z ∙ o) in
          ground (arith, n, n', unpaid_at (nodes l front v) h a);
      unused = λ a e. ground (arith, unpaid_at (nodes l front v) h a);
    },
    ground arith,
    Vanished-all left_over (nodes l front v) (λ a t. rw t (ground arith)) left_at,
  )
