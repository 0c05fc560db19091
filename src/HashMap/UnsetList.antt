-- ===== src/HashMap/UnsetList.antt =====
-- `hashmap_unset` at a list.
use neonrt.Base.{
  ℕ, suc, ◌+◌, ◌%◌, ◌^◌, ◌<◌, ◌≡◌, ◌≢◌, refl, sym, ap, true, some, none, List, [], ◌∷◌, ◌++◌, arith,
  ◌==◌, get_elem?, length, if◌then◌else◌,
}
use neonrt.Memory.{Ptr, null, fault, HmapBucket, LinkedList, linked, Heap, ok, write}
use neonrt.Memory.Rules.{
  Holds, not_null, Holds-write_ne, free-ok, load_node-ok, load_list-ok, load_linked-ok,
  load_linked-none,
}
use neonrt.Buffer.Rules.{KeyAt}
use neonrt.Buffer.Compare.{runtime_hash}
use neonrt.LinkedList.Seg.{Nodes, ll_node, Seg, nil, cons, Seg-write, not-has}
use neonrt.LinkedList.Add.{IsList, nodes}
use neonrt.LinkedList.Nth.{ll_remove_node-first}
use neonrt.HashMap.{Hmap, Env}
use neonrt.HashMap.Chain.{
  unset_loop, find_loop, linked_list_find, hmap_complex_key_get_value, hmap_complex_key_unset_value,
}
use neonrt.HashMap.Table.{hmap_get, hashmap_unset}
use neonrt.HashMap.Lookup.{Reaches, passes, hmap_hash-ok, load_bucket-ok}
use neonrt.HashMap.Slot.{Entry, Entries, entry}
use neonrt.HashMap.Find.{buff_cmp_raw-KeyAt}

-- The first node of a list with its entry.
pub record First (h : Heap) (p : Ptr) (key : List ℕ) (value : Ptr) : Type 0 where
  pub pair : Ptr
  pub key_buff : Ptr
  pub next : Ptr
  pub node_at : Holds h p (ll_node next pair)
  pub pair_at : Holds h pair (linked (record { key = key_buff; value = value }))
  pub key_at : KeyAt h key_buff key

Entries-First :
    {h : Heap} {stop p v : Ptr} {xs : Nodes} {es : List Entry} {key : List ℕ} {value : Ptr}
    → Seg h stop p xs
    → Holds h stop (ll_node null v)
    → Entries h (xs ++ ((stop, v) ∷ [])) ((key, value) ∷ es)
    → First h p key value
Entries-First nil e (entry e' k rest) = record {
  pair = _;
  key_buff = _;
  next = _;
  node_at = e;
  pair_at = e';
  key_at = k;
}
Entries-First (cons e fresh s) end (entry e' k rest) = record {
  pair = _;
  key_buff = _;
  next = _;
  node_at = e;
  pair_at = e';
  key_at = k;
}

-- A list stays as its entries are freed.
IsList-freed :
    {h : Heap} {p self : Ptr} {l : LinkedList} {front : Nodes} {v : Ptr} {n : _}
    → Holds h p (linked n)
    → IsList h self l front v
    → IsList (write h p none) self l front v
IsList-freed {h} {p} e is = record {
  header = Holds-write_ne p none is.header (λ q. ground (arith, e.at, is.header.at, ap h q));
  chain = Seg-write p none is.chain (not-has p is.chain (λ q w e'. ground (arith, e.at, e')));
  back = Holds-write_ne p none is.back (λ q. ground (arith, e.at, is.back.at, ap h q));
  distinct = is.distinct;
  count = is.count;
}

module _ (env : Env) {m : Hmap} {h : Heap} {key : List ℕ} {digest : ℕ} {bs : List HmapBucket}
    {b : HmapBucket} (r : Reaches m h key digest bs)
    (found : get_elem? bs (digest % m.capacity) ≡ some b) where
  -- On a map that takes accesses, at a list whose first key has the hash of the key given, and
  -- that has fewer than 2 ^ 64 - 1 keys, `hashmap_unset` with at least one round returns the
  -- value of that key and frees its entry, and changes nothing else of memory or of the map's struct:
  -- the list is as before, and its first node still points to the entry that is freed. A walk that
  -- compares the first entry, as the `hmap_get` of the key after it does, is undefined.
  pub unset_first_key :
      {self : Ptr} {l : LinkedList} {front : Nodes} {v : Ptr} {k : List ℕ} {value : Ptr}
      {es : List Entry} (n : ℕ)
      → env.rounds ≡ suc n
      → b.is_complex ≡ true
      → b.value ≡ self
      → IsList h self l front v
      → Entries h (nodes l front v) ((k, value) ∷ es)
      → runtime_hash env.sip k ≡ runtime_hash env.sip key
      → length front + 2 < 2 ^ 64
      → (f : First h l.first k value) × (h' : Heap) × (hashmap_unset env key m h ≡ ok (value, m) h')
        × ((q : Ptr) → h' q ≡ (if q == f.pair then none else h q))
        × IsList h' self l front v
        × Holds h' l.first (ll_node f.next f.pair)
        × ((other : List ℕ) (rounds : ℕ) → find_loop env.sip other (suc rounds) l.first h' ≡ fault)
        × (hmap_get env key m h' ≡ fault)
  unfolding hashmap_unset hmap_get hmap_complex_key_unset_value hmap_complex_key_get_value
      linked_list_find unset_loop find_loop write
  unset_first_key {self} {l} {k} {value} n rounds complex head is entries same short =
      let f = Entries-First is.chain is.back entries in
      let equal : (runtime_hash env.sip k == runtime_hash env.sip key) ≡ true =
        ground (arith, same) in
      let h' = write h f.pair none in
      let is' = IsList-freed f.pair_at is in
      let ne : f.pair ≢ m.bucket_array = λ e. ground (arith, f.pair_at.at, r.array.at, ap h e) in
      let r' : Reaches m h' key digest bs = record {
        unlocked = r.unlocked;
        recoverable = r.recoverable;
        hashes = r.hashes;
        array = Holds-write_ne f.pair none r.array (λ e. ne (sym e));
        sized = r.sized;
        capacity_ne = r.capacity_ne;
      } in
      let node_at' : Holds h' l.first (ll_node f.next f.pair) =
        Holds-write_ne f.pair none f.node_at
          (λ e. ground (arith, f.pair_at.at, f.node_at.at, ap h e)) in
      (
        f,
        h',
        rw
            (
              passes env r "hashmap_unset",
              hmap_hash-ok env r,
              load_bucket-ok (digest % m.capacity) r.array found,
              complex,
              head,
              load_list-ok is.header,
              rounds,
              not_null f.node_at,
              load_node-ok f.node_at,
              load_linked-ok f.pair_at,
              buff_cmp_raw-KeyAt env.sip key f.key_at,
              equal,
              free-ok f.pair_at,
              ll_remove_node-first is' short 0 (omega arith),
            )
            refl,
        λ q. ground arith,
        is',
        node_at',
        λ other rounds'.
            rw (not_null node_at', load_node-ok node_at', load_linked-none h f.pair) refl,
        rw
            (
              passes env r' "hmap_get",
              hmap_hash-ok env r',
              load_bucket-ok (digest % m.capacity) r'.array found,
              complex,
              head,
              load_list-ok is'.header,
              rounds,
              not_null node_at',
              load_node-ok node_at',
              load_linked-none h f.pair,
            )
            refl,
      )
