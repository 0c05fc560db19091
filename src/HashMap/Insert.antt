-- ===== src/HashMap/Insert.antt =====
-- `hmap_set` of a key that is not in the map, and `hmap_get` after it.
use neonrt.Base
use neonrt.Base.{
  ℕ, ◌+◌, ◌/◌, ◌%◌, ◌^◌, ◌<◌, ◌≡◌, ◌≢◌, refl, sym, ap, ◌∙◌, Bool, false, true, some, none, List, [],
  ◌∷◌, ◌++◌, arith, ◌==◌, ltb, if◌then◌else◌, Bool-cases, inl, inr, get_elem?, length,
  length-append,
}
use neonrt.Word.{add_size, mul_size}
use neonrt.Memory.{Ptr, HmapBucket, buckets, Heap, ok, write}
use neonrt.Memory.Rules.{not_null, Holds-write, write_ne}
use neonrt.Memory.Frame.{
  Frame-trans, Frame-buckets, Grows-Frame, Grows-Holds, Below, Below-rewrite, Roomy,
}
use neonrt.Buffer.Roomy.{buff_new-BuffMade}
use neonrt.Buffer.Compare.{runtime_hash}
use neonrt.HashMap.{Hmap, pure, and_then, Env}
use neonrt.HashMap.Resize.{update_load_factor}
use neonrt.HashMap.Table.{hmap_set}
use neonrt.HashMap.Lookup.{Reaches, passes, hmap_hash-ok, load_bucket-ok, update_load-healthy}
use neonrt.HashMap.Update.{hmap_set-filled}
use neonrt.HashMap.Slot.{
  Holds-Frame, Entry, Slot, vacant, single, chain, Holding, KeyAt-Frame, length-Entries,
}
use neonrt.HashMap.Find.{find, buff_cmp_raw-KeyAt}
use neonrt.HashMap.Chained.{Changed, set_value-chain, set_value-single}
use neonrt.HashMap.Represent.{Contents, put, Represents, Represents-Reaches, claim}
use neonrt.HashMap.Apart.{Table-Changed}

-- The load after one more key.
abbrev pub load_of : Hmap → ℕ
load_of m = mul_size (add_size m.set 1) 100 / m.capacity

-- One more key is counted, and a collision where the bucket had entries.
abbrev pub grown : List Entry → Hmap → Hmap
grown es m = record m {
  set = add_size m.set 1;
  load_factor = load_of m;
  collisions = if length es == 0 then m.collisions else add_size m.collisions 1;
}

-- The map before its load is computed.
abbrev pub counted : List Entry → Hmap → Hmap
counted es m = record m {
  set = add_size m.set 1;
  collisions = if length es == 0 then m.collisions else add_size m.collisions 1;
}

-- A run that adds an entry to the bucket at `i`, and then computes the load.
pub record Step (env : Env) (key : List ℕ) (value : Ptr) (allow_update : Bool) (m : Hmap) (h : Heap)
    (bs : List HmapBucket) (i : ℕ) (header end : Ptr) (before : (Ptr → ℕ) → ℕ → Type 0)
    (es : List Entry) (top : Ptr) : Type 0 where
  pub after : Heap
  pub runs :
      hmap_set env key value allow_update m h
      ≡ and_then (update_load_factor env (counted es m) after) (λ _. pure true)
  pub changed :
      Changed h after m.bucket_array bs i header end before (es ++ ((key, value) ∷ [])) top

module _ (env : Env) {limit : Ptr} (roomy : Roomy env.alloc limit) (key : List ℕ) (value : Ptr)
    (allow_update : Bool) {m : Hmap} {h : Heap} {top : Ptr} (pos : 0 < top)
    (under : top + 6 < limit) (below : Below h top) {digest : ℕ} {bs : List HmapBucket}
    {b : HmapBucket} (reach : Reaches m h key digest bs)
    (found : get_elem? bs (digest % m.capacity) ≡ some b) where
  inside : ltb (digest % m.capacity) (length bs) ≡ true
  inside = ground (arith, reach.sized, reach.capacity_ne)

  pub hmap_set-Slot :
      {header end : Ptr} {es : List Entry}
      → (s : Slot h b header end es) → (length es ≡ 1 → find env.sip key es ≡ none)
      → length es + 1 < 2 ^ 64
      → Step env key value allow_update m h bs
          (digest % m.capacity)
          header
          end
          (λ own k. Holding own k s)
          es
          top
  unfolding hmap_set find
  hmap_set-Slot {header} {end} (vacant s l plain empty bare) missing room =
      let kb = buff_new-BuffMade key top roomy pos (omega arith) below in
      let bucket : HmapBucket = record b { key = kb.self; value = value; is_complex = false } in
      let at1 = Grows-Holds kb.grows reach.array in
      let stored =
        Frame-buckets header end (buckets (Base.set bs (digest % m.capacity) bucket)) at1 in
      record {
        after =
            write kb.after m.bucket_array
              (some (buckets (Base.set bs (digest % m.capacity) bucket)));
        runs = hmap_set-filled env reach found plain value allow_update (ground arith) kb.runs at1;
        changed = record {
          bucket = bucket;
          header = header;
          end = end;
          array_at = Holds-write at1 _;
          slot = single s l refl (KeyAt-Frame stored kb.holds) refl;
          frame = Frame-trans (Grows-Frame header end kb.grows) stored;
          arrays = λ q ds ne e. write_ne kb.after m.bucket_array _ q ne ∙ kb.grows.kept q _ e;
          owned = λ own k before fresh. before;
          fresh_header = λ ne ne'. absurd (ne s);
          fresh_end = λ ne. absurd (ne l);
          below = λ q le. Below-rewrite _ kb.below at1 q (omega arith);
        };
      }
  hmap_set-Slot {header} {end} (single {key = first_key} {v} s l plain key_at is) missing room =
      let differ : (runtime_hash env.sip first_key == runtime_hash env.sip key) ≡ false =
        ground (arith, missing refl) in
      let c =
        set_value-single env roomy value m key pos under below (digest % m.capacity) reach.array
          found inside header end plain key_at in
      record {
        after = c.after;
        runs =
            rw
              (
                passes env reach "hmap_set",
                hmap_hash-ok env reach,
                load_bucket-ok (digest % m.capacity) reach.array found,
                plain,
                not_null key_at.is.struct,
                buff_cmp_raw-KeyAt env.sip key key_at,
                differ,
                c.runs,
              )
              refl;
        changed = rw (sym is) c.changed;
      }
  hmap_set-Slot (chain {v} {l} {front} {es} complex head end is entries) missing room =
      let c =
        set_value-chain env roomy value m key pos under below (digest % m.capacity) reach.array
          found inside complex head is entries room in
      let some_entries : (length es == 0) ≡ false =
        ground (arith, length-Entries entries, length-append front ((l.last, v) ∷ [])) in
      record {
        after = c.after;
        runs =
            rw
              (
                passes env reach "hmap_set",
                hmap_hash-ok env reach,
                load_bucket-ok (digest % m.capacity) reach.array found,
                complex,
                c.runs,
              )
              (rw some_entries refl);
        changed = rw (sym end) c.changed;
      }

-- A run of `hmap_set` that adds an entry to the contents of the map, up to the computation of the load.
pub record Added (env : Env) (key : List ℕ) (value : Ptr) (allow_update : Bool) (m : Hmap)
    (h : Heap) (contents : Contents) (k : ℕ) (top : Ptr) : Type 0 where
  pub after : Heap
  pub runs :
      hmap_set env key value allow_update m h
      ≡ and_then (update_load_factor env (counted (contents k) m) after) (λ _. pure true)
  pub represents :
      (load : ℕ)
      → Represents
          (record m {
            set = add_size m.set 1;
            load_factor = load;
            collisions = if length (contents k) == 0 then m.collisions else add_size m.collisions 1;
          })
          after
          (put k (contents k ++ ((key, value) ∷ [])) contents)
  pub below : Below after (top + 7)

pub add-Represents :
    (env : Env) (key : List ℕ) (value : Ptr) (allow_update : Bool) {limit : Ptr} {m : Hmap}
    {h : Heap} {contents : Contents} {digest : ℕ} (top : Ptr)
    → Roomy env.alloc limit
    → Represents m h contents
    → m.hash_fn key m.seed ≡ some digest
    → (length (contents (digest % m.capacity)) ≡ 1
        → find env.sip key (contents (digest % m.capacity)) ≡ none)
    → length (contents (digest % m.capacity)) + 1 < 2 ^ 64
    → 0 < top
    → top + 6 < limit
    → Below h top
    → Added env key value allow_update m h contents (digest % m.capacity) top
add-Represents env key value allow_update {m} {h} {contents} {digest} top roomy r hashes missing
      room pos under below =
    let k = digest % m.capacity in
    let lt : k < m.capacity = ground (arith, r.capacity_ne) in
    let p = r.places k lt in
    let s =
      hmap_set-Slot env roomy key value allow_update pos under below (Represents-Reaches r hashes)
        p.found p.slot missing room in
    record {
      after = s.after;
      runs = s.runs;
      represents = λ load. record {
        struct = Holds-Frame s.changed.frame r.struct refl;
        unlocked = r.unlocked;
        recoverable = r.recoverable;
        bs = Base.set r.bs k s.changed.bucket;
        array = s.changed.array_at;
        capacity_ne = r.capacity_ne;
        own = claim h (0 + k) r.own;
        table = Table-Changed r.own r.table k lt s.changed;
      };
      below = s.changed.below;
    }

-- A run of `hmap_set` that returns true and adds an entry to the contents of the map.
pub record Inserted (env : Env) (key : List ℕ) (value : Ptr) (allow_update : Bool) (m : Hmap)
    (h : Heap) (contents : Contents) (k : ℕ) (top : Ptr) : Type 0 where
  pub after : Heap
  pub runs : hmap_set env key value allow_update m h ≡ ok (true, grown (contents k) m) after
  pub represents :
      Represents (grown (contents k) m) after (put k (contents k ++ ((key, value) ∷ [])) contents)
  pub below : Below after (top + 7)

pub insert-Represents :
    (env : Env) (key : List ℕ) (value : Ptr) (allow_update : Bool) {limit : Ptr} {m : Hmap}
    {h : Heap} {contents : Contents} {digest : ℕ} (top : Ptr)
    → Roomy env.alloc limit
    → Represents m h contents
    → m.hash_fn key m.seed ≡ some digest
    → (length (contents (digest % m.capacity)) ≡ 1
        → find env.sip key (contents (digest % m.capacity)) ≡ none)
    → length (contents (digest % m.capacity)) + 1 < 2 ^ 64
    → ltb m.unhealthy_threshold (load_of m) ≡ false
    → 0 < top
    → top + 6 < limit
    → Below h top
    → Inserted env key value allow_update m h contents (digest % m.capacity) top
insert-Represents env key value allow_update {m} {contents} {digest} top roomy r hashes missing room
      healthy pos under below =
    let s =
      add-Represents env key value allow_update top roomy r hashes missing room pos under below in
    record {
      after = s.after;
      runs =
          s.runs
          ∙ rw
              (update_load-healthy env (counted (contents (digest % m.capacity)) m) s.after
                r.capacity_ne healthy)
              refl;
      represents = s.represents (load_of m);
      below = s.below;
    }

-- Take a map that takes accesses and whose buckets stand for the entries given, and a key that no
-- entry of its bucket has the hash of. Where the load stays within the threshold, the bucket has
-- fewer than 2 ^ 64 - 1 entries, and memory has room for seven more blocks, `hmap_set` returns
-- true, and adds the key with its value to the entries of that bucket, whether it has none, one or
-- a list of them; every other bucket keeps its entries. The map counts one more key, and a
-- collision where the bucket had entries.
pub hmap_set_lem :
    (env : Env) (key : List ℕ) (value : Ptr) (allow_update : Bool) {limit : Ptr} {m : Hmap}
    {h : Heap} {contents : Contents} {digest : ℕ} (top : Ptr)
    → Roomy env.alloc limit
    → Represents m h contents
    → m.hash_fn key m.seed ≡ some digest
    → find env.sip key (contents (digest % m.capacity)) ≡ none
    → length (contents (digest % m.capacity)) + 1 < 2 ^ 64
    → ltb m.unhealthy_threshold (load_of m) ≡ false
    → 0 < top
    → top + 6 < limit
    → Below h top
    → Inserted env key value allow_update m h contents (digest % m.capacity) top
hmap_set_lem env key value allow_update top roomy r hashes missing =
    insert-Represents env key value allow_update top roomy r hashes (λ one. missing)
