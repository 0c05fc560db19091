-- ===== src/HashMap/Grow.antt =====
-- `hmap_resize` of any map.
use neonrt.Base.{
  ℕ, zero, suc, ◌+◌, ◌*◌, ◌/◌, ◌^◌, ◌≡◌, ◌≢◌, ◌≤◌, ◌<◌, refl, sym, ap, true, false, ◌&&◌, some,
  none, List, [], length, arith, ◌==◌, ltb, if◌then◌else◌, replicate, length-replicate,
  get_elem?-replicate,
}
use neonrt.Word.{add_size, mul_size}
use neonrt.Memory.{Ptr, null, HmapBucket, raw, buckets, size_of, Heap, ok, write}
use neonrt.Memory.Rules.{
  Holds, Holds-write_ne, allocate-ok, allocate_unused, write_same, write-none,
}
use neonrt.Memory.Frame.{
  Grows-Frame, Grows-Holds, Below, Roomy, Frame-release, gets, filled, filled-Holds, filled-Below,
  filled-Grows, filled-init,
}
use neonrt.HashMap.{Hmap, Env, empty_bucket}
use neonrt.HashMap.Resize.{hmap_rehash, count_loop, count_collisions, hmap_resize}
use neonrt.HashMap.Lookup.{load_bucket-ok, update_load-within}
use neonrt.HashMap.Slot.{vacant, Holding-map}
use neonrt.HashMap.Represent.{Contents, Table, Represents}
use neonrt.HashMap.Loan.{Table-Frame}
use neonrt.HashMap.Arrays.{Places, Arrays}
use neonrt.HashMap.Settle.{Valued}
use neonrt.HashMap.Scatter.{scatter, total}
use neonrt.HashMap.Move.{Moved}
use neonrt.HashMap.Rehash.{rehash_loop-Moved}
use neonrt.HashMap.Freed.{Table-Freed}
use neonrt.HashMap.FreeBuckets.{hmap_free_buckets-Swept}

count_loop-ok :
    {h : Heap} {array : Ptr} {bs : List HmapBucket} {n base : ℕ} {own : Ptr → ℕ}
    {contents : Contents} (left i c : ℕ) (m : Hmap)
    → Holds h array (buckets bs)
    → Table h bs n base own contents
    → i + left ≤ n
    → (c' : ℕ) × (count_loop array left i c m h ≡ ok (c', m) h)
unfolding count_loop
count_loop-ok zero i c m at t room = (c, refl)
count_loop-ok (suc left) i c m at t room =
    let p = t.places i (omega arith) in
    let (c', runs) =
      count_loop-ok left (i + 1) (if p.bucket.is_complex then add_size c 1 else c) m at t
        (omega arith) in
    (c', rw (load_bucket-ok i at p.found) runs)

-- The numbers of the buckets start from `base` instead of 0.
Table-base :
    {h : Heap} {bs : List HmapBucket} {n : ℕ} {own : Ptr → ℕ} {contents : Contents} (base : ℕ)
    → Table h bs n 0 own contents
    → Table h bs n base (λ a. base + own a) contents
Table-base {own} base t = record {
  sized = t.sized;
  headers = t.headers;
  ends = t.ends;
  places = λ i lt.
      let p = t.places i lt in
      record {
        bucket = p.bucket;
        found = p.found;
        slot = p.slot;
        owned =
            Holding-map own (λ a. base + own a) (0 + i) (base + i) p.slot
              (λ a used o. omega (arith, o)) p.owned;
      };
}

-- The map after a resize.
abbrev pub regrown : Ptr → ℕ → ℕ → Hmap → Hmap
regrown array new_cap collisions m = record m {
  bucket_array = array;
  capacity = new_cap;
  collisions = collisions;
  load_factor = mul_size m.set 100 / new_cap;
  locked = false;
}

-- A run of `hmap_resize` that leaves a map of the new capacity with these contents, and frees the array
-- of before.
pub record Resized (depth : ℕ) (env : Env) (new_cap : ℕ) (m : Hmap) (h : Heap) (contents : Contents)
    (top : Ptr) : Type 0 where
  pub after : Heap
  pub array : Ptr
  pub collisions : ℕ
  pub runs :
      hmap_resize (suc depth) env new_cap m h ≡ ok (tt, regrown array new_cap collisions m) after
  pub represents : Represents (regrown array new_cap collisions m) after contents
  pub freed : after m.bucket_array ≡ none
  pub below : Below after top

module _ (depth : ℕ) (env : Env) {limit : Ptr} (roomy : Roomy env.alloc limit) (new_cap : ℕ)
    {m : Hmap} {h : Heap} {contents : Contents} (digest : List ℕ → ℕ) (top : Ptr)
    (r : Represents m h contents)
    (hashes : (key : List ℕ) → m.hash_fn key m.seed ≡ some (digest key))
    (few : (k : ℕ) → length (contents k) < env.rounds) (fits : total m.capacity 0 contents < 2 ^ 64)
    (some_values : (k : ℕ) → Valued (contents k)) (nonempty : new_cap ≢ 0)
    (small : new_cap * 32 < 2 ^ 64) (pos : 0 < top)
    (under : top + 1 + 7 * total m.capacity 0 contents ≤ limit) (below : Below h top) where
  abbrev size : ℕ
  size = mul_size new_cap 32

  abbrev cleared : List HmapBucket
  cleared = replicate new_cap empty_bucket

  abbrev started : Hmap
  started = record m { locked = true }

  room : top < limit
  room = omega (arith, under)

  abbrev with_array : Heap
  with_array = filled roomy pos room below size (buckets cleared)

  abbrev array' : Ptr
  array' = env.alloc.malloc size h

  differ : m.bucket_array ≢ array'
  differ e =
      ground (
        arith,
        allocate_unused env.alloc size h (gets roomy pos room below size),
        r.array.at,
        ap h e,
      )

  abbrev arrays' : Places
  arrays' = record {
    struct = m.self;
    old = m.bucket_array;
    new = array';
    bs = r.bs;
    cap = m.capacity;
    new_cap = new_cap;
    before = contents;
  }

  start : Arrays arrays' (λ a. new_cap + r.own a) with_array (λ i. []) (top + 1)
  start =
      let grows = filled-Grows roomy pos room below size (buckets cleared) in
      record {
        nb = cleared;
        struct_at = Grows-Holds grows r.struct;
        old_at = Grows-Holds grows r.array;
        new_at = filled-Holds roomy pos room below size (buckets cleared);
        olds = Table-Frame (Grows-Frame null null grows) (Table-base new_cap r.table);
        news = record {
          sized = length-replicate new_cap empty_bucket;
          headers = λ i. null;
          ends = λ i. null;
          places = λ i lt. record {
            bucket = empty_bucket;
            found = get_elem?-replicate new_cap empty_bucket i lt;
            slot = vacant refl refl refl refl refl;
            owned = tt;
          };
        };
        below = filled-Below roomy pos room below size (buckets cleared);
      }

  rehashed :
      Moved
        (hmap_rehash env array' new_cap (record started { collisions = 0 }) with_array)
        started
        arrays'
        with_array
        (λ a. new_cap + r.own a)
        (scatter digest new_cap m.capacity 0 contents (λ i. []))
        (top + 1 + 7 * total m.capacity 0 contents)
  unfolding hmap_rehash
  rehashed =
      rehash_loop-Moved env roomy started arrays' digest hashes nonempty differ m.capacity 0 0
        (λ i. []) (top + 1) start refl (omega arith) few (λ i. omega (arith, fits)) some_values
        (λ i. tt) (omega arith) under

  as_many : size / 32 ≡ new_cap
  as_many = omega (arith, small)

  enough : size_of (buckets cleared) ≤ size
  enough = omega (arith, small, length-replicate new_cap empty_bucket)

  pub hmap_resize-Resized :
      (m.last_error_code == 0) ≡ true
      → (ltb 0 m.resize_bound && ltb m.resize_bound new_cap) ≡ false
      → ltb m.unhealthy_threshold (mul_size m.set 100 / new_cap) ≡ false
      → Resized depth env new_cap m h
          (scatter digest new_cap m.capacity 0 contents (λ i. []))
          (top + 1 + 7 * total m.capacity 0 contents)
  unfolding hmap_resize count_collisions
  hmap_resize-Resized no_error within healthy =
      let got = gets roomy pos room below size in
      let w = rehashed.arrays in
      let switched : Hmap = record m {
        locked = true;
        collisions = rehashed.collisions;
        bucket_array = array';
        capacity = new_cap;
      } in
      let s =
        hmap_free_buckets-Swept env.rounds rehashed.own' w.old_at w.olds few env switched refl in
      let g = write s.swept m.bucket_array none in
      let old_at : Holds s.swept m.bucket_array (buckets r.bs) = record {
        ne_null = w.old_at.ne_null;
        at = s.freed.kept _ _ refl w.old_at.at;
      } in
      let new_at : Holds s.swept array' (buckets w.nb) = record {
        ne_null = w.new_at.ne_null;
        at = s.freed.kept _ _ refl w.new_at.at;
      } in
      let struct_at : Holds s.swept m.self (raw 352) = record {
        ne_null = w.struct_at.ne_null;
        at = s.freed.kept _ _ refl w.struct_at.at;
      } in
      let apart_struct : m.self ≢ m.bucket_array =
        λ e. ground (arith, struct_at.at, old_at.at, ap s.swept e) in
      let new_at' = Holds-write_ne m.bucket_array none new_at (λ e. differ (sym e)) in
      let news =
        Table-Frame (Frame-release null null old_at)
          (Table-Freed s.freed (λ i lt. ground arith) w.news) in
      let (c, counts) =
        count_loop-ok new_cap 0 0 (record switched { load_factor = mul_size m.set 100 / new_cap })
          new_at' news (omega arith) in
      record {
        after = g;
        array = array';
        collisions = c;
        runs =
            rw
              (
                within,
                allocate-ok env.alloc size h got,
                got,
                as_many,
                filled-init roomy pos room below size (buckets cleared) enough,
              )
              (rw
                (
                  rehashed.runs,
                  no_error,
                  s.runs,
                  update_load-within env (hmap_resize depth env) switched g nonempty healthy,
                )
                (rw counts refl));
        represents = record {
          struct = Holds-write_ne m.bucket_array none struct_at apart_struct;
          unlocked = refl;
          recoverable = r.recoverable;
          bs = w.nb;
          array = new_at';
          capacity_ne = nonempty;
          own = rehashed.own';
          table = news;
        };
        freed = write_same s.swept m.bucket_array none;
        below = λ q le. write-none s.swept m.bucket_array q (s.freed.unused q (w.below q le));
      }
