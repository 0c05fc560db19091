-- ===== src/HashMap/Arrays.antt =====
-- The old and the new bucket array of `hmap_rehash`.
use neonrt.Base
use neonrt.Base.{
  ℕ, ◌+◌, ◌≡◌, ◌≢◌, ◌≤◌, ◌<◌, refl, sym, ap, ◌∙◌, none, List, [], ◌∷◌, ◌++◌, arith, ◌==◌,
}
use neonrt.Memory.{Ptr, null, HmapBucket, buff, raw, buckets, Heap}
use neonrt.Word.{add_size}
use neonrt.Memory.Rules.{Holds, Holds-write_ne}
use neonrt.Memory.Frame.{Below, Below-rewrite}
use neonrt.Buffer.Rules.{KeyAt}
use neonrt.HashMap.Slot.{Entry, Holding, Holds-Frame}
use neonrt.HashMap.Chained.{Changed}
use neonrt.HashMap.Represent.{Contents, put, Table, claim, claim_used}
use neonrt.HashMap.Apart.{Table-apart, Table-Changed, self_own, last_own}
use neonrt.HashMap.Loan.{loan, loan-Frame, Table-Frame}
use neonrt.HashMap.Walk.{Walk, Walk-Frame}

-- Where the two arrays are, and the sizes and the contents that stay.
pub record Places : Type 0 where
  pub struct : Ptr
  pub old : Ptr
  pub new : Ptr
  pub bs : List HmapBucket
  pub cap : ℕ
  pub new_cap : ℕ
  pub before : Contents

-- The old array stands for what it did, and the new one for `now`. They share keys, but no lists.
pub record Arrays (a : Places) (own : Ptr → ℕ) (h : Heap) (now : Contents) (top : Ptr)
    : Type 0 where
  pub nb : List HmapBucket
  pub struct_at : Holds h a.struct (raw 352)
  pub old_at : Holds h a.old (buckets a.bs)
  pub new_at : Holds h a.new (buckets nb)
  pub olds : Table h a.bs a.cap a.new_cap own a.before
  pub news : Table h nb a.new_cap 0 own now
  pub below : Below h top

module _ (a : Places) {own : Ptr → ℕ} where
  pub Arrays-loan :
      {h : Heap} {now : Contents} {top p : Ptr} {key : List ℕ} (k : KeyAt h p key)
      → Arrays a own h now top
      → Arrays a own (loan p k) now top
  Arrays-loan {h} {p} k w =
      let f = loan-Frame k null null in
      record {
        nb = w.nb;
        struct_at = Holds-Frame f w.struct_at refl;
        old_at =
            Holds-write_ne p _ w.old_at (λ e. ground (arith, w.old_at.at, k.is.struct.at, ap h e));
        new_at =
            Holds-write_ne p _ w.new_at (λ e. ground (arith, w.new_at.at, k.is.struct.at, ap h e));
        olds = Table-Frame f w.olds;
        news = Table-Frame f w.news;
        below =
            Below-rewrite (buff (record k.struct { ref_ct = add_size k.struct.ref_ct 1 })) w.below
              k.is.struct;
      }

  module _ {h h' : Heap} {now : Contents} {top : Ptr} (w : Arrays a own h now top) (k : ℕ)
      (lt : k < a.new_cap) {es : List Entry} (differ : a.old ≢ a.new)
      (c : Changed h h' a.new w.nb k
        (w.news.headers k)
        (w.news.ends k)
        (λ own k'. Holding own k' (w.news.places k lt).slot)
        es
        top) where
    pub Arrays-Changed : Arrays a (claim h (0 + k) own) h' (put k es now) (top + 7)
    Arrays-Changed = record {
      nb = Base.set w.nb k c.bucket;
      struct_at = Holds-Frame c.frame w.struct_at refl;
      old_at = record { ne_null = w.old_at.ne_null; at = c.arrays _ _ differ w.old_at.at };
      new_at = c.array_at;
      olds =
          Table-apart (0 + k) own c.frame (self_own own w.news k lt c) (last_own own w.news k lt c)
            (λ i lt'. omega (arith, lt)) w.olds;
      news = Table-Changed own w.news k lt c;
      below = c.below;
    }

    pub Walk-Changed :
        (j : ℕ) {p : Ptr} {es' : List Entry}
        → a.new_cap ≤ j
        → Walk h own j p es'
        → Walk h' (claim h (0 + k) own) j p es'
    Walk-Changed j le =
        Walk-Frame own (claim h (0 + k) own) j c.frame
          (λ ne e. ground (arith, last_own own w.news k lt c ne))
          (λ q used o. claim_used h (0 + k) own q used ∙ o)

-- Room that is left over.
pub Arrays-top :
    {a : Places} {own : Ptr → ℕ} {h : Heap} {now : Contents} {top : Ptr} (top' : Ptr)
    → top ≤ top'
    → Arrays a own h now top
    → Arrays a own h now top'
Arrays-top top' le w = record {
  nb = w.nb;
  struct_at = w.struct_at;
  old_at = w.old_at;
  new_at = w.new_at;
  olds = w.olds;
  news = w.news;
  below = λ q le'. w.below q (omega (arith, le, le'));
}
