-- ===== src/HashMap/Slot.antt =====
-- The keys with values that a bucket stands for, in each of its three forms.
use neonrt.Base.{
  ℕ, suc, ◌≡◌, ◌≢◌, refl, sym, ap, ◌∙◌, Bool, true, false, ◌||◌, Option, none, List, [], ◌∷◌, ◌++◌,
  length, arith, ◌==◌,
}
use neonrt.Memory.{
  Ptr, null, ManagedBuffer, HmapBucket, LinkedList, linked, buff, block, Object, Heap, write,
}
use neonrt.Memory.Rules.{Holds, Holds-write_ne}
use neonrt.Memory.Frame.{Frame, is_payload}
use neonrt.Buffer.Rules.{KeyAt}
use neonrt.LinkedList.Seg.{Nodes, has, Seg, nil, cons, not-has, has-append, start-ne-null}
use neonrt.LinkedList.Add.{IsList, nodes}

-- A key with its value.
abbrev pub Entry : Type 0
Entry = List ℕ × Ptr

-- The nodes of a list carry these entries.
pub data Entries (h : Heap) : Nodes → List Entry → Type 0 where
  none_left : Entries h [] []
  entry :
      {p e kp v : Ptr} {key : List ℕ} {xs : Nodes} {es : List Entry}
      → Holds h e (linked (record { key = kp; value = v }))
      → KeyAt h kp key
      → Entries h xs es
      → Entries h ((p, e) ∷ xs) ((key, v) ∷ es)

-- A bucket stands for no entry, for one, or for those of its list, whose header and last node are at
-- `self` and `last`; these are null pointers where there is no list.
pub data Slot (h : Heap) (b : HmapBucket) : Ptr → Ptr → List Entry → Type 0 where
  vacant :
      {self last : Ptr}
      → self ≡ null
      → last ≡ null
      → b.is_complex ≡ false
      → b.key ≡ null
      → b.value ≡ null
      → Slot h b self last []
  single :
      {self last : Ptr} {key : List ℕ} {v : Ptr}
      → self ≡ null
      → last ≡ null
      → b.is_complex ≡ false
      → KeyAt h b.key key
      → b.value ≡ v
      → Slot h b self last ((key, v) ∷ [])
  chain :
      {self last v : Ptr} {l : LinkedList} {front : Nodes} {es : List Entry}
      → b.is_complex ≡ true
      → b.value ≡ self
      → l.last ≡ last
      → IsList h self l front v
      → Entries h (nodes l front v) es
      → Slot h b self last es

-- A key stays under a write to what is neither a buffer nor the bytes of one.
pub KeyAt-write :
    {h : Heap} {p q : Ptr} {key : List ℕ} (o : Object) (c : Option Object)
    → Holds h q o
    → ((b : ManagedBuffer) → o ≢ buff b)
    → ((bs : List ℕ) → o ≢ block bs)
    → KeyAt h p key
    → KeyAt (write h q c) p key
KeyAt-write {h} {q} o c e other other' k = record {
  struct = k.struct;
  bytes = k.bytes;
  is = record {
    struct =
        Holds-write_ne q c k.is.struct
          (λ z. ground (arith, e.at, k.is.struct.at, ap h z, other k.struct));
    stored =
        Holds-write_ne q c k.is.stored
          (λ z. ground (arith, e.at, k.is.stored.at, ap h z, other' k.bytes));
    len_in = k.is.len_in;
  };
  holds = k.holds;
  unlocked = k.unlocked;
}

-- A payload of one of the nodes.
abbrev pub carries : Ptr → Nodes → Bool
carries a [] = false
carries a ((p, e) ∷ xs) = (a == e) || carries a xs

-- Nodes, and payloads that differ, which all belong to `k`.
abbrev pub Owned : (Ptr → ℕ) → ℕ → Nodes → Type 0
Owned own k [] = Unit {0}
Owned own k ((p, e) ∷ xs) = (own p ≡ k) × (own e ≡ k) × (carries e xs ≡ false) × Owned own k xs

-- The header, the nodes and the entries of a bucket's list belong to `k`.
abbrev pub Holding :
    (own : Ptr → ℕ) (k : ℕ) {h : Heap} {b : HmapBucket} {self last : Ptr} {es : List Entry}
    → Slot h b self last es
    → Type 0
Holding own k (vacant s l plain empty bare) = Unit {0}
Holding own k (single s l plain key_at is) = Unit {0}
Holding own k (chain {self} {v} {l} {front} complex head end is entries) =
    (own self ≡ k) × Owned own k (nodes l front v)

module _ {h h' : Heap} {self last : Ptr} (f : Frame h h' self last) where
  pub Holds-Frame : {p : Ptr} {o : Object} → Holds h p o → is_payload o ≡ true → Holds h' p o
  Holds-Frame e kind = record { ne_null = e.ne_null; at = f.payload _ _ e.at kind }

  pub KeyAt-Frame : {p : Ptr} {key : List ℕ} → KeyAt h p key → KeyAt h' p key
  KeyAt-Frame k =
      let (n, at) = f.struct _ _ k.is.struct.at in
      record {
        struct = record k.struct { ref_ct = n };
        bytes = k.bytes;
        is = record {
          struct = record { ne_null = k.is.struct.ne_null; at = at };
          stored = Holds-Frame k.is.stored refl;
          len_in = k.is.len_in;
        };
        holds = k.holds;
        unlocked = k.unlocked;
      }

  pub Entries-Frame : {xs : Nodes} {es : List Entry} → Entries h xs es → Entries h' xs es
  Entries-Frame none_left = none_left
  Entries-Frame (entry e k rest) = entry (Holds-Frame e refl) (KeyAt-Frame k) (Entries-Frame rest)

  Seg-Frame : {stop p : Ptr} {xs : Nodes} → stop ≢ null → Seg h stop p xs → Seg h' stop p xs
  Seg-Frame ne nil = nil
  Seg-Frame ne (cons e fresh s) =
      cons (record { ne_null = e.ne_null; at = f.inner _ _ (start-ne-null s ne) e.at }) fresh
        (Seg-Frame ne s)

  pub IsList-Frame :
      {p : Ptr} {l : LinkedList} {front : Nodes} {v : Ptr}
      → p ≢ self
      → l.last ≢ last
      → IsList h p l front v
      → IsList h' p l front v
  IsList-Frame ne ne' is = record {
    header = record { ne_null = is.header.ne_null; at = f.header _ _ ne is.header.at };
    chain = Seg-Frame is.back.ne_null is.chain;
    back = record { ne_null = is.back.ne_null; at = f.end _ _ ne' is.back.at };
    distinct = is.distinct;
    count = is.count;
  }

  -- A bucket keeps its entries, and what belongs to it, under a change that spares its own list.
  pub Slot-Frame :
      {b : HmapBucket} {p q : Ptr} {es : List Entry}
      → (p ≡ self → p ≡ null)
      → (q ≡ last → q ≡ null)
      → (s : Slot h b p q es)
      → (s' : Slot h' b p q es) × ((own : Ptr → ℕ) (k : ℕ) → Holding own k s → Holding own k s')
  Slot-Frame spare spare' (vacant s l plain empty bare) =
      (vacant s l plain empty bare, λ own k o. o)
  Slot-Frame spare spare' (single s l plain k value) =
      (single s l plain (KeyAt-Frame k) value, λ own k o. o)
  Slot-Frame spare spare' (chain complex head end is es) = (
    chain complex head end
        (IsList-Frame (λ e. is.header.ne_null (spare e))
          (λ e. is.back.ne_null (end ∙ spare' (sym end ∙ e))) is)
        (Entries-Frame es),
    λ own k o. o,
  )

pub Entries-snoc :
    {h : Heap} (p : Ptr) {xs : Nodes} {es : List Entry} {e kp v : Ptr} {key : List ℕ}
    → Entries h xs es
    → Holds h e (linked (record { key = kp; value = v }))
    → KeyAt h kp key
    → Entries h (xs ++ ((p, e) ∷ [])) (es ++ ((key, v) ∷ []))
Entries-snoc p none_left e k = entry e k none_left
Entries-snoc p (entry e' k' rest) e k = entry e' k' (Entries-snoc p rest e k)

carries_snoc :
    (a p e : Ptr) (xs : Nodes)
    → carries a xs ≡ false
    → a ≢ e
    → carries a (xs ++ ((p, e) ∷ [])) ≡ false
carries_snoc a p e [] out ne = ground arith
carries_snoc a p e ((q, w) ∷ xs) out ne = ground (arith, carries_snoc a p e xs)

-- An address that is not in use is no payload of a list.
pub carries-unused :
    {h : Heap} {xs : Nodes} {es : List Entry} (a : Ptr)
    → Entries h xs es
    → h a ≡ none
    → carries a xs ≡ false
carries-unused a none_left unused = refl
carries-unused {h} {xs = (p, e) ∷ xs} a (entry holds k rest) unused =
    let ne : a ≢ e = λ t. ground (arith, holds.at, unused, ap h t) in
    ground (arith, carries-unused a rest unused)

module _ (own : Ptr → ℕ) (k : ℕ) where
  pub Owned-snoc :
      (p e : Ptr) (xs : Nodes)
      → Owned own k xs
      → own p ≡ k
      → own e ≡ k
      → carries e xs ≡ false
      → Owned own k (xs ++ ((p, e) ∷ []))
  Owned-snoc p e [] owned at at' out = (at, at', refl, tt)
  Owned-snoc p e ((q, w) ∷ xs) (o, o', fresh, rest) at at' out = (
    o,
    o',
    carries_snoc w p e xs fresh (ground arith),
    Owned-snoc p e xs rest at at' (ground arith),
  )

module _ (own own' : Ptr → ℕ) (k k' : ℕ) where
  Owned-map :
      (xs : Nodes)
      → ((a : Ptr) → has a xs ≡ true → own a ≡ k → own' a ≡ k')
      → ((a : Ptr) → carries a xs ≡ true → own a ≡ k → own' a ≡ k')
      → Owned own k xs
      → Owned own' k' xs
  Owned-map [] f g owned = tt
  Owned-map ((p, e) ∷ xs) f g (o, o', fresh, rest) = (
    f p (ground arith) o,
    g e (ground arith) o',
    fresh,
    Owned-map xs (λ a t. f a (ground arith)) (λ a t. g a (ground arith)) rest,
  )

  -- What belongs to a bucket can change its number as long as its addresses follow.
  pub Holding-map :
      {h : Heap} {b : HmapBucket} {self last : Ptr} {es : List Entry} (s : Slot h b self last es)
      → ((a : Ptr) → h a ≢ none → own a ≡ k → own' a ≡ k')
      → Holding own k s
      → Holding own' k' s
  Holding-map (vacant s l plain empty bare) f held = tt
  Holding-map (single s l plain key_at is) f held = tt
  Holding-map {h} (chain {self} {v} {l} {front} complex head end is entries) f (o, owned) = (
    f self (ground (arith, is.header.at)) o,
    Owned-map (nodes l front v)
        (λ a t. f a λ unused. ground (
          arith,
          t,
          has-append a l.last v front,
          not-has a is.chain (λ q w e. ground (arith, unused, e)),
          is.back.at,
          unused,
          (λ (e : a ≡ l.last). ap h e),
        ))
        (λ a t. f a λ unused. ground (arith, t, carries-unused a entries unused)) owned,
  )

pub length-Entries :
    {h : Heap} {xs : Nodes} {es : List Entry} → Entries h xs es → length xs ≡ length es
length-Entries none_left = refl
length-Entries (entry e k rest) = ap suc (length-Entries rest)
