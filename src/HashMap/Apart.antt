-- ===== src/HashMap/Apart.antt =====
-- Changes of one bucket, and what they leave of the other buckets.
use neonrt.Base
use neonrt.Base.{
  ℕ, ◌+◌, ◌<◌, ◌≡◌, ◌≢◌, refl, sym, ap, ◌∙◌, List, arith, ◌==◌, Bool-cases, inl, inr, get_elem?,
  get_elem?-set_self, get_elem?-set_ne, length-set, if◌then◌else◌,
}
use neonrt.Memory.{Ptr, null, HmapBucket, Heap}
use neonrt.Memory.Frame.{Frame}
use neonrt.HashMap.Slot.{Entry, Slot, Holding, Slot-Frame, Holding-map}
use neonrt.HashMap.Chained.{Changed}
use neonrt.HashMap.Represent.{
  Contents, put, Place, Table, header_own, end_own, claim, claim_used, claim_unused,
}

module _ {h h' : Heap} {self last : Ptr} (k : ℕ) (own : Ptr → ℕ) (f : Frame h h' self last)
    (self_own : self ≢ null → own self ≡ k) (last_own : last ≢ null → own last ≡ k) where
  Slot-apart :
      {b : HmapBucket} {p q : Ptr} {es : List Entry} (j : ℕ) (s : Slot h b p q es)
      → Holding own j s
      → j ≢ k
      → (s' : Slot h' b p q es) × Holding (claim h k own) j s'
  Slot-apart {p} {q} j s held ne =
      let (s', keep) =
        Slot-Frame f (λ e. ground (arith, self_own, header_own own j s held, ap own e))
          (λ e. ground (arith, last_own, end_own own j s held, ap own e)) s in
      (
        s',
        keep (claim h k own) j (
            Holding-map own (claim h k own) j j s (λ a used o. claim_used h k own a used ∙ o) held),
      )

  -- An array none of whose buckets has the number `k` stands for the same.
  pub Table-apart :
      {bs : List HmapBucket} {n base : ℕ} {contents : Contents}
      → ((i : ℕ) → i < n → base + i ≢ k)
      → Table h bs n base own contents
      → Table h' bs n base (claim h k own) contents
  Table-apart {base} other t = record {
    sized = t.sized;
    headers = t.headers;
    ends = t.ends;
    places = λ i lt.
        let p = t.places i lt in
        let (s, held) = Slot-apart (base + i) p.slot p.owned (other i lt) in
        record { bucket = p.bucket; found = p.found; slot = s; owned = held };
  }

module _ {h h' : Heap} {array : Ptr} {bs : List HmapBucket} {n base : ℕ} (own : Ptr → ℕ)
    {contents : Contents} (t : Table h bs n base own contents) (k : ℕ) (lt : k < n)
    {es : List Entry} {top : Ptr}
    (c : Changed h h' array bs k
      (t.headers k)
      (t.ends k)
      (λ own k'. Holding own k' (t.places k lt).slot)
      es
      top) where
  -- What belongs to the bucket at `k` alone may change.
  pub self_own : t.headers k ≢ null → own (t.headers k) ≡ base + k
  self_own = header_own own (base + k) (t.places k lt).slot (t.places k lt).owned

  pub last_own : t.ends k ≢ null → own (t.ends k) ≡ base + k
  last_own = end_own own (base + k) (t.places k lt).slot (t.places k lt).owned

  Place-Changed :
      (i : ℕ)
      → i < n
      → Place h'
          (Base.set bs k c.bucket)
          i
          (if i == k then c.header else t.headers i)
          (if i == k then c.end else t.ends i)
          (put k es contents i)
          (claim h (base + k) own)
          (base + i)
  unfolding put
  Place-Changed i lt' = elim (Bool-cases (i == k)) [
    | inl e ↦
        let e' : i ≡ k = ground arith in
        let p = t.places k lt in
        rw (e, e')
          (record {
            bucket = c.bucket;
            found = get_elem?-set_self bs k c.bucket (ground (arith, t.sized));
            slot = c.slot;
            owned =
                c.owned (claim h (base + k) own) (base + k)
                  (Holding-map own (claim h (base + k) own) (base + k) (base + k) p.slot
                    (λ a used o. claim_used h (base + k) own a used ∙ o) p.owned)
                  (claim_unused h (base + k) own);
          })
    | inr ne ↦
        let p = t.places i lt' in
        let (s, held) =
          Slot-apart (base + k) own c.frame self_own last_own (base + i) p.slot p.owned
            (ground arith) in
        rw ne (record {
          bucket = p.bucket;
          found = get_elem?-set_ne bs c.bucket (ground arith) ∙ p.found;
          slot = s;
          owned = held;
        })
  ]

  -- The contents follow a change of one bucket.
  pub Table-Changed :
      Table h' (Base.set bs k c.bucket) n base (claim h (base + k) own) (put k es contents)
  Table-Changed = record {
    sized = length-set bs k c.bucket ∙ t.sized;
    headers = λ i. if i == k then c.header else t.headers i;
    ends = λ i. if i == k then c.end else t.ends i;
    places = Place-Changed;
  }
