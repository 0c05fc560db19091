-- ===== src/HashMap/Shadow.antt =====
-- `hmap_set` of a key that is in a list already.
use neonrt.Base.{
  ℕ, ◌+◌, ◌%◌, ◌^◌, ◌<◌, ◌≡◌, refl, Bool, true, false, some, List, [], ◌∷◌, ◌++◌, arith, ◌==◌, ltb,
  length, length-append,
}
use neonrt.Memory.{Ptr, Heap, ok}
use neonrt.Memory.Frame.{Below, Roomy}
use neonrt.HashMap.{Hmap, Env}
use neonrt.HashMap.Table.{hmap_set}
use neonrt.HashMap.Find.{find, find-snoc_old}
use neonrt.HashMap.Represent.{Contents, put, Represents}
use neonrt.HashMap.Insert.{grown, load_of, insert-Represents}
use neonrt.HashMap.Session.{Got, hmap_get-Represents}

put_self : (k : ℕ) (es : List _) (contents : Contents) → put k es contents k ≡ es
unfolding put
put_self k es contents = let same : (k == k) ≡ true = ground arith in rw same refl

-- Take a map that takes accesses and whose buckets stand for the entries given, and a key whose
-- hash its bucket of two or more entries has already. Where the load stays within the threshold,
-- memory has room for seven more blocks, and the bucket has fewer entries than 2 ^ 64 - 1 and one
-- less than the rounds, `hmap_set` returns true with and without `allow_update`, and counts one
-- more key; but a `hmap_get` of the key after it returns the value of before.
pub hmap_set_shadowed :
    (env : Env) (key : List ℕ) (value w : Ptr) (allow_update : Bool) {limit : Ptr} {m : Hmap}
    {h : Heap} {contents : Contents} {digest : ℕ} (top : Ptr)
    → Roomy env.alloc limit
    → Represents m h contents
    → m.hash_fn key m.seed ≡ some digest
    → 1 < length (contents (digest % m.capacity))
    → find env.sip key (contents (digest % m.capacity)) ≡ some w
    → length (contents (digest % m.capacity)) + 1 < 2 ^ 64
    → length (contents (digest % m.capacity)) + 1 < env.rounds
    → ltb m.unhealthy_threshold (load_of m) ≡ false
    → 0 < top
    → top + 6 < limit
    → Below h top
    → (h' : Heap) × (hmap_set env key value allow_update m h
        ≡ ok (true, grown (contents (digest % m.capacity)) m) h')
      × Got env key (grown (contents (digest % m.capacity)) m) h' w
hmap_set_shadowed env key value w allow_update {m} {contents} {digest} top roomy r hashes many found
      room walk healthy pos under below =
    let k = digest % m.capacity in
    let s =
      insert-Represents env key value allow_update top roomy r hashes (λ one. absurd (ground arith))
        room healthy pos under below in
    let es' = contents k ++ ((key, value) ∷ []) in
    let here = put_self k es' contents in
    let got =
      hmap_get-Represents env s.represents hashes
        (rw here (omega (arith, length-append (contents k) ((key, value) ∷ [])))) in
    (s.after, s.runs, rw (here, find-snoc_old env.sip key key value (contents k) found) at got)
