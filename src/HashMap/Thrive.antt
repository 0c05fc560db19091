-- ===== src/HashMap/Thrive.antt =====
-- A map that grows as keys are set.
use neonrt.Base.{
  ℕ, ◌+◌, ◌*◌, ◌-◌, ◌/◌, ◌%◌, ◌^◌, ◌≡◌, ◌≢◌, ◌≤◌, ◌<◌, refl, sym, ap, ◌∙◌, Bool, true, false, some,
  none, List, [], ◌∷◌, ◌++◌, length, arith, ltb, Bool-cases, inl, inr,
}
use neonrt.Word.{add_size, mul_size}
use neonrt.Memory.{Ptr, Heap, ok}
use neonrt.Memory.Frame.{Below, Roomy}
use neonrt.Buffer.Compare.{runtime_hash}
use neonrt.HashMap.{Hmap, Env}
use neonrt.HashMap.Table.{hmap_get, hmap_set}
use neonrt.HashMap.Find.{hmap_get_lem}
use neonrt.HashMap.Represent.{Contents, put, Represents, Represents-Reaches}
use neonrt.HashMap.Insert.{load_of, grown, hmap_set_lem}
use neonrt.HashMap.Dict.{Dict, bind, Agrees}
use neonrt.HashMap.Session.{Agrees-put}
use neonrt.HashMap.Settle.{Valued}
use neonrt.HashMap.Scatter.{
  scatter, total, Valued-push, Valued-scatter, length-push, length-scatter,
}
use neonrt.HashMap.Located.{Located, Located-push, Located-scatter, find_kept}
use neonrt.HashMap.Totals.{total-put, total-scatter, total-empty}
use neonrt.HashMap.Grow.{regrown}
use neonrt.HashMap.Outgrow.{Doubles, outgrow-Represents}
use native.Mathlib.Nat.{div-lt_iff_lt-mul}

-- A map with the default threshold, a callback that doubles, no error kept and no bound, whose buckets agree with a
-- dictionary, and whose load is within the threshold.
pub record Thrives (env : Env) (m : Hmap) (h : Heap) (contents : Contents) (d : Dict) (top : Ptr)
    : Type 0 where
  pub hashes : (key : List ℕ) → m.hash_fn key m.seed ≡ some (runtime_hash env.sip key)
  pub represents : Represents m h contents
  pub agrees : Agrees env.sip m.capacity contents d
  pub located : (i : ℕ) → Located env.sip m.capacity i (contents i)
  pub some_values : (i : ℕ) → Valued (contents i)
  pub short : (i : ℕ) → length (contents i) ≤ m.set
  pub counts : total m.capacity 0 contents ≡ m.set
  pub doubles : Doubles env m.unhealthy_callback
  pub threshold : m.unhealthy_threshold ≡ 75
  pub no_error : m.last_error_code ≡ 0
  pub unbounded : m.resize_bound ≡ 0
  pub large : 16 ≤ m.capacity
  pub loaded : m.set * 100 < 76 * m.capacity
  pub small : m.capacity ≤ 100 + 3 * m.set
  pub below : Below h top

-- A run of `hmap_set` that stores a key in such a map.
pub record Stored (env : Env) (key : List ℕ) (value : Ptr) (allow_update : Bool) (m : Hmap)
    (h : Heap) (d : Dict) (top : Ptr) : Type 0 where
  pub map : Hmap
  pub after : Heap
  pub contents : Contents
  pub runs : hmap_set env key value allow_update m h ≡ ok (true, map) after
  pub thrives : Thrives env map after contents (bind (runtime_hash env.sip key) value d) top
  pub set_is : map.set ≡ m.set + 1

module _ (c x : ℕ) (ne : 0 < c) where
  load_within : ltb 75 (x / c) ≡ false → x < 76 * c
  load_within e =
      let lt : x / c < 76 = ground (arith, e) in
      omega (arith, (div-lt_iff_lt-mul {k = c} {x = x} {y = 76} ne).0 lt)

  over_full : ltb 75 (x / c) ≡ true → 76 * c ≤ x
  over_full e = elim (Bool-cases (ltb x (76 * c))) [
    | inl few ↦
        let lt : x < 76 * c = ground (arith, few) in
        let under : x / c < 76 = (div-lt_iff_lt-mul {k = c} {x = x} {y = 76} ne).1 lt in
        absurd (ground (arith, e, under))
    | inr many ↦ ground (arith, many)
  ]

  within_load : x < 76 * c → ltb 75 (x / c) ≡ false
  within_load lt =
      let under : x / c < 76 = (div-lt_iff_lt-mul {k = c} {x = x} {y = 76} ne).1 lt in
      ground (arith, under)

module _ (env : Env) (key : List ℕ) (value : Ptr) (allow_update : Bool) {limit : Ptr} {m : Hmap}
    {h : Heap} {contents : Contents} {d : Dict} (top : Ptr) (roomy : Roomy env.alloc limit)
    (t : Thrives env m h contents d top) (fresh : d (runtime_hash env.sip key) ≡ none)
    (ne_null : value ≢ 0) (walk : m.set + 1 < env.rounds) (bound : env.rounds ≤ 2 ^ 50)
    (pos : 0 < top) (under : top + 8 + 7 * (m.set + 1) ≤ limit) where
  abbrev k : ℕ
  k = runtime_hash env.sip key % m.capacity

  abbrev now : Contents
  now = put k (contents k ++ ((key, value) ∷ [])) contents

  sum : mul_size (add_size m.set 1) 100 ≡ (m.set + 1) * 100
  sum = omega (arith, walk, bound)

  some_buckets : 0 < m.capacity
  some_buckets = omega (arith, t.large)

  now_short : (i : ℕ) → length (now i) ≤ m.set + 1
  now_short i =
      omega (arith, length-push (runtime_hash env.sip) m.capacity key value contents i, t.short i)

  now-total : total m.capacity 0 now ≡ m.set + 1
  now-total =
      total-put m.capacity k contents (key, value) (ground (arith, some_buckets))
      ∙ ap (λ (n : ℕ). n + 1) t.counts

  now-Valued : (i : ℕ) → Valued (now i)
  now-Valued =
      Valued-push (runtime_hash env.sip) m.capacity key value contents t.some_values ne_null

  now-Located : (i : ℕ) → Located env.sip m.capacity i (now i)
  now-Located = Located-push env.sip m.capacity key value contents t.located

  now-Agrees : Agrees env.sip m.capacity now (bind (runtime_hash env.sip key) value d)
  now-Agrees = Agrees-put env.sip key value m.capacity contents d t.agrees fresh

  next : Ptr
  next = top + 8 + 7 * (m.set + 1)

  set_within :
      ltb m.unhealthy_threshold (load_of m) ≡ false
      → Stored env key value allow_update m h d (top + 8 + 7 * (m.set + 1))
  set_within healthy =
      let s =
        hmap_set_lem env key value allow_update top roomy t.represents (t.hashes key)
          (t.agrees.same key ∙ fresh) (omega (arith, t.short k, walk, bound)) healthy pos
          (omega (arith, under)) t.below in
      let load : ltb 75 ((m.set + 1) * 100 / m.capacity) ≡ false =
        rw (t.threshold, sum) at healthy in
      let one_more : add_size m.set 1 ≡ m.set + 1 = omega (arith, walk, bound) in
      record {
        map = grown (contents k) m;
        after = s.after;
        contents = now;
        runs = s.runs;
        thrives = record {
          hashes = t.hashes;
          represents = s.represents;
          agrees = now-Agrees;
          located = now-Located;
          some_values = now-Valued;
          short = λ i. omega (arith, now_short i, one_more);
          counts = now-total ∙ sym one_more;
          doubles = t.doubles;
          threshold = t.threshold;
          no_error = t.no_error;
          unbounded = t.unbounded;
          large = t.large;
          loaded =
              omega (arith, one_more, load_within m.capacity ((m.set + 1) * 100) some_buckets load);
          small = omega (arith, one_more, t.small);
          below = λ q le. s.below q (omega (arith, le));
        };
        set_is = one_more;
      }

  set_over :
      ltb m.unhealthy_threshold (load_of m) ≡ true
      → Stored env key value allow_update m h d (top + 8 + 7 * (m.set + 1))
  set_over over =
      let load : ltb 75 ((m.set + 1) * 100 / m.capacity) ≡ true = rw (t.threshold, sum) at over in
      let one_more : add_size m.set 1 ≡ m.set + 1 = omega (arith, walk, bound) in
      let full : 76 * m.capacity ≤ (m.set + 1) * 100 =
        over_full m.capacity ((m.set + 1) * 100) some_buckets load in
      let fits : m.capacity * 64 < 2 ^ 64 = omega (arith, t.small, walk, bound) in
      let healthy : ltb m.unhealthy_threshold (mul_size (add_size m.set 1) 100 / (m.capacity * 2))
          ≡ false =
        rw (t.threshold, sum)
          (within_load (m.capacity * 2) ((m.set + 1) * 100) (omega (arith, t.large))
            (omega (arith, t.loaded, t.large))) in
      let s =
        outgrow-Represents (env.rounds - 1) env key value allow_update (runtime_hash env.sip) top
          roomy t.represents t.hashes (omega (arith, walk)) (t.agrees.same key ∙ fresh)
          (omega (arith, t.short k, walk, bound)) (λ i. omega (arith, now_short i, walk))
          (omega (arith, now-total, walk, bound)) now-Valued t.doubles (rw t.threshold refl)
          (ground (arith, t.no_error)) (ground (arith, t.unbounded)) over fits healthy pos
          (omega (arith, now-total, under)) t.below in
      let moved = scatter (runtime_hash env.sip) (m.capacity * 2) m.capacity 0 now (λ i. []) in
      let nonempty : m.capacity * 2 ≢ 0 = omega (arith, some_buckets) in
      record {
        map = regrown s.array (m.capacity * 2) s.collisions (grown (contents k) m);
        after = s.after;
        contents = moved;
        runs = s.runs;
        thrives = record {
          hashes = t.hashes;
          represents = s.represents;
          agrees = record {
            same = λ key'.
                find_kept env.sip m.capacity (m.capacity * 2) key' now t.represents.capacity_ne
                  now-Located
                ∙ now-Agrees.same key';
          };
          located = Located-scatter env.sip (m.capacity * 2) m.capacity 0 now (λ i. []) (λ i. tt);
          some_values =
              Valued-scatter (runtime_hash env.sip) (m.capacity * 2) m.capacity 0 now (λ i. [])
                now-Valued (λ i. tt);
          short = λ i. omega (
            arith,
            length-scatter (runtime_hash env.sip) (m.capacity * 2) m.capacity 0 now (λ i. []) i,
            now-total,
            one_more,
          );
          counts = omega (
            arith,
            total-scatter (runtime_hash env.sip) (m.capacity * 2) nonempty m.capacity 0 now
                (λ i. []),
            total-empty (m.capacity * 2) 0,
            now-total,
            one_more,
          );
          doubles = t.doubles;
          threshold = t.threshold;
          no_error = t.no_error;
          unbounded = t.unbounded;
          large = omega (arith, t.large);
          loaded = omega (arith, one_more, t.loaded, t.large);
          small = omega (arith, one_more, full);
          below = λ q le. s.below q (omega (arith, le, now-total));
        };
        set_is = one_more;
      }

  -- Setting a new key keeps such a map, whether its capacity is doubled or not.
  pub set-Thrives : Stored env key value allow_update m h d (top + 8 + 7 * (m.set + 1))
  set-Thrives = elim (Bool-cases (ltb m.unhealthy_threshold (load_of m))) [
    | inl over ↦ set_over over
    | inr healthy ↦ set_within healthy
  ]

-- Getting a key that is there changes nothing.
pub get-Thrives :
    (env : Env) (key : List ℕ) {m : Hmap} {h : Heap} {contents : Contents} {d : Dict} {top : Ptr}
    (v : Ptr)
    → Thrives env m h contents d top
    → d (runtime_hash env.sip key) ≡ some v
    → m.set < env.rounds
    → hmap_get env key m h ≡ ok (v, m) h
get-Thrives env key {m} {h} {contents} v t present walk =
    let i = runtime_hash env.sip key % m.capacity in
    let p = t.represents.places i (ground (arith, t.large)) in
    hmap_get_lem env (Represents-Reaches t.represents (t.hashes key)) p.found p.slot
      (omega (arith, t.short i, walk))
    ∙ rw (t.agrees.same key ∙ present) refl

-- Room that is left over.
pub Thrives-top :
    {env : Env} {m : Hmap} {h : Heap} {contents : Contents} {d : Dict} {top : Ptr} (top' : Ptr)
    → top ≤ top'
    → Thrives env m h contents d top
    → Thrives env m h contents d top'
Thrives-top top' le t = record {
  hashes = t.hashes;
  represents = t.represents;
  agrees = t.agrees;
  located = t.located;
  some_values = t.some_values;
  short = t.short;
  counts = t.counts;
  doubles = t.doubles;
  threshold = t.threshold;
  no_error = t.no_error;
  unbounded = t.unbounded;
  large = t.large;
  loaded = t.loaded;
  small = t.small;
  below = λ q le'. t.below q (omega (arith, le, le'));
}
