-- ===== src/HashMap/Growth.antt =====
-- Sequences of calls on a new map that grows by itself.
use neonrt.Base.{
  ℕ, ◌+◌, ◌*◌, ◌^◌, ◌≡◌, ◌≢◌, ◌≤◌, ◌<◌, refl, none, some, Option-cases, inl, inr, List, [], ◌∷◌,
  arith, length, false, ◌==◌, if◌then◌else◌,
}
use neonrt.Memory.{Ptr, Heap, ok}
use neonrt.Memory.Frame.{Below, Roomy, gets, raw-Below, filled-Below}
use neonrt.SipWrapper.{SipHash}
use neonrt.Buffer.Compare.{runtime_hash, wrap_siphash-runtime_hash}
use neonrt.Memory.{null, buckets}
use neonrt.HashMap.{
  Hmap, Env, default_seed, ErrorCallback, UnhealthyCallback, default_error_callback,
  default_unhealthy,
}
use neonrt.HashMap.Table.{hmap_new_default}
use neonrt.HashMap.New.{array, fresh, made, cleared, hmap_new-ok}
use neonrt.HashMap.Find.{find}
use neonrt.HashMap.Represent.{Contents}
use neonrt.HashMap.Dict.{Dict, bind, Op, set, get, Reply, serve}
use neonrt.HashMap.Session.{run}
use neonrt.HashMap.Default.{no_keys, fresh-Represents}
use neonrt.HashMap.Totals.{total-empty}
use neonrt.HashMap.Outgrow.{Doubles, by_default}
use neonrt.HashMap.Thrive.{Thrives, Thrives-top, set-Thrives, get-Thrives}

module _ (sip : SipHash) where
  -- Each key that is set is new and has a value that is no null pointer, and each key that is fetched is
  -- there.
  abbrev pub Apt : Dict → List Op → Type 0
  Apt d [] = Unit {0}
  Apt d (set key value allow_update ∷ ops) =
      (d (runtime_hash sip key) ≡ none)
      × (value ≢ 0)
      × Apt (bind (runtime_hash sip key) value d) ops
  Apt d (get key ∷ ops) = (d (runtime_hash sip key) ≢ none) × Apt d ops

-- A number of blocks of memory that is enough for the calls after `n` keys: each set may rehash all the
-- keys so far.
abbrev pub blocks : ℕ → List Op → ℕ
blocks n [] = 0
blocks n (set key value allow_update ∷ ops) = 8 + 7 * (n + 1) + blocks (n + 1) ops
blocks n (get key ∷ ops) = blocks n ops

-- A run of calls that replies as the dictionary does, on a map that thrives.
pub record Thriving (env : Env) (m : Hmap) (h : Heap) (ops : List Op) (replies : List Reply)
    (d : Dict) (top : Ptr) : Type 0 where
  pub map : Hmap
  pub after : Heap
  pub contents : Contents
  pub runs : run env ops m h ≡ ok (replies, map) after
  pub thrives : Thrives env map after contents d top
  pub counted : map.set ≤ m.set + length ops

pub run-Thriving :
    (env : Env) {limit : Ptr} (ops : List Op) {m : Hmap} {h : Heap} (contents : Contents) (d : Dict)
    (n : ℕ) (top : Ptr)
    → Roomy env.alloc limit
    → Thrives env m h contents d top
    → m.set ≡ n
    → Apt env.sip d ops
    → n + length ops < env.rounds
    → env.rounds ≤ 2 ^ 50
    → 0 < top
    → top + blocks n ops ≤ limit
    → Thriving env m h ops (serve env.sip d ops).0 (serve env.sip d ops).1 (top + blocks n ops)
unfolding run serve
run-Thriving env [] {m} {h} contents d n top roomy t counts apt walk bound pos under = record {
  map = m;
  after = h;
  contents = contents;
  runs = refl;
  thrives = Thrives-top (top + 0) (omega arith) t;
  counted = omega arith;
}
run-Thriving env (set key value allow_update ∷ ops) {m} {h} contents d n top roomy t counts apt walk
      bound pos under =
    let s =
      set-Thrives env key value allow_update top roomy t apt.0 apt.1 (omega (arith, counts, walk))
        bound pos (omega (arith, counts, under)) in
    let rest =
      run-Thriving env ops s.contents (bind (runtime_hash env.sip key) value d) (n + 1)
        (top + 8 + 7 * (m.set + 1)) roomy s.thrives (omega (arith, s.set_is, counts)) apt.2
        (omega (arith, walk)) bound (omega arith) (omega (arith, counts, under)) in
    record {
      map = rest.map;
      after = rest.after;
      contents = rest.contents;
      runs = rw (s.runs, rest.runs) refl;
      thrives =
          Thrives-top (top + blocks n (set key value allow_update ∷ ops)) (omega (arith, counts))
            rest.thrives;
      counted = omega (arith, rest.counted, s.set_is);
    }
run-Thriving env (get key ∷ ops) {m} {h} contents d n top roomy t counts apt walk bound pos under =
    elim (Option-cases (d (runtime_hash env.sip key))) [
      | inl missing ↦ absurd (apt.0 missing)
      | inr (v, present) ↦
          let rest =
            run-Thriving env ops contents d n top roomy t counts apt.1 (omega (arith, walk)) bound
              pos under in
          record {
            map = rest.map;
            after = rest.after;
            contents = rest.contents;
            runs =
                rw
                  (
                    get-Thrives env key v t present (omega (arith, counts, walk)),
                    rest.runs,
                    present,
                  )
                  refl;
            thrives = rest.thrives;
            counted = omega (arith, rest.counted);
          }
    ]

-- A new map of a size between 16 and 100, with whatever callback doubles it, thrives.
pub fresh-Thrives :
    (env : Env) (c seed : ℕ) {h : Heap} (e : ErrorCallback) (u : UnhealthyCallback) (top : Ptr)
    (got : (env.alloc.malloc 352 h == null) ≡ false)
    (got' : (array env c 75 seed h == null) ≡ false)
    → (if seed == 0 then default_seed else seed) ≡ default_seed
    → 16 ≤ c
    → c ≤ 100
    → Doubles env u
    → Below (made env c 75 seed h got got') top
    → Thrives env
        (record (fresh env c 75 seed h) { error_callback = e; unhealthy_callback = u })
        (made env c 75 seed h got got')
        (λ i. [])
        no_keys
        top
unfolding find
fresh-Thrives env c seed {h} e u top got got' seeded least most doubles below =
    let r = fresh-Represents env c seed got got' (omega (arith, least)) (omega (arith, most)) in
    let size : (fresh env c 75 seed h).capacity ≡ c = ground (arith, least) in
    record {
      hashes = rw seeded (wrap_siphash-runtime_hash env.sip);
      represents = record {
        struct = r.struct;
        unlocked = r.unlocked;
        recoverable = r.recoverable;
        bs = r.bs;
        array = r.array;
        capacity_ne = r.capacity_ne;
        own = r.own;
        table = r.table;
      };
      agrees = record { same = λ key. refl };
      located = λ i. tt;
      some_values = λ i. tt;
      short = λ i. omega arith;
      counts = total-empty (fresh env c 75 seed h).capacity 0;
      doubles = doubles;
      threshold = refl;
      no_error = refl;
      unbounded = refl;
      large = omega (arith, size, least);
      loaded = omega (arith, size, least);
      small = omega (arith, size, most);
      below = below;
    }

-- A new map that replies to calls and thrives.
pub record NewThrives (env : Env) (h : Heap) (ops : List Op) (replies : List Reply) (d : Dict)
    (top : Ptr) : Type 0 where
  pub map : Hmap
  pub after : Heap
  pub runs : hmap_new_default env h ≡ ok (some map) after
  pub empty : map.set ≡ 0
  pub thriving : Thriving env map after ops replies d top

-- However often its load goes over the threshold, a map of `hmap_new_default` works as a dictionary
-- from the hashes of keys to values, which is empty at first: over any sequence of calls of
-- `hmap_set` with keys of new hashes and values that are no null pointers and of `hmap_get` with
-- keys that have been set, the map replies as the dictionary does, whichever keys share a bucket.
-- In the end it is unlocked, with no error kept, its load is within the threshold of 75, and its
-- buckets agree with the dictionary. There must be fewer calls than rounds, of which there are
-- 2 ^ 50 at most, and memory must have room for two blocks and those of the calls.
pub new_map_grows :
    (env : Env) {limit : Ptr} (ops : List Op) {h : Heap} (top : Ptr)
    → Roomy env.alloc limit
    → Apt env.sip no_keys ops
    → length ops < env.rounds
    → env.rounds ≤ 2 ^ 50
    → 0 < top
    → top + 2 + blocks 0 ops ≤ limit
    → Below h top
    → NewThrives env h ops
        (serve env.sip no_keys ops).0
        (serve env.sip no_keys ops).1
        (top + 2 + blocks 0 ops)
unfolding hmap_new_default
new_map_grows env {limit} ops {h} top roomy apt walk bound pos under below =
    let room : top + 1 < limit = omega (arith, under) in
    let got = gets roomy pos (omega arith) below 352 in
    let below1 = raw-Below roomy pos (omega arith) below 352 in
    let pos1 : 0 < top + 1 = omega arith in
    let got' = gets roomy pos1 room below1 512 in
    let below2 =
      filled-Below roomy pos1 room below1 512 (buckets (cleared env 16 75 default_seed h)) in
    let thrives =
      fresh-Thrives env 16 default_seed default_error_callback default_unhealthy (top + 2) got got'
        refl (omega arith) (omega arith) (by_default refl) (λ q le. below2 q (omega arith)) in
    record {
      map = fresh env 16 75 default_seed h;
      after = made env 16 75 default_seed h got got';
      runs = hmap_new-ok env 16 75 default_seed h got got';
      empty = refl;
      thriving =
          run-Thriving env ops (λ i. []) no_keys 0 (top + 2) roomy thrives refl apt
            (omega (arith, walk)) bound (omega arith) under;
    }
