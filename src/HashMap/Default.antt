-- ===== src/HashMap/Default.antt =====
-- Sequences of calls on a map that `hmap_new_default` has made.
use neonrt.Base.{
  ℕ, ◌+◌, ◌*◌, ◌^◌, ◌≡◌, ◌≤◌, ◌<◌, refl, false, ◌==◌, none, some, List, [], arith, length,
  get_elem?-replicate, length-replicate, ◌/◌, ◌≢◌,
}
use neonrt.Word.{mul_size}
use neonrt.Memory.{Ptr, null, buckets, Heap, ok}
use neonrt.Memory.Frame.{Below, Roomy, gets, raw-Below, filled-Below}
use neonrt.Buffer.Compare.{wrap_siphash-runtime_hash}
use neonrt.HashMap.{Hmap, Env, empty_bucket, default_seed}
use neonrt.HashMap.Table.{hmap_new_default}
use neonrt.HashMap.New.{array, fresh, made, cleared, hmap_new-ok, Holds-made, Holds-struct}
use neonrt.HashMap.Slot.{vacant}
use neonrt.HashMap.Find.{find}
use neonrt.HashMap.Represent.{Represents}
use neonrt.HashMap.Dict.{Dict, Op, Reply, serve, Welcome}
use neonrt.HashMap.Session.{Serves, map_run_refines}

-- A new map that replies to calls.
pub record NewServes (env : Env) (h : Heap) (ops : List Op) (replies : List Reply) (d : Dict)
    : Type 0 where
  pub map : Hmap
  pub after : Heap
  pub runs : hmap_new_default env h ≡ ok (some map) after
  pub serves : Serves env map after ops replies d

-- The buckets of a new map are empty.
pub fresh-Represents :
    (env : Env) (c seed : ℕ) {h : Heap} (got : (env.alloc.malloc 352 h == null) ≡ false)
    (got' : (array env c 75 seed h == null) ≡ false)
    → c ≢ 0
    → 32 * c < 2 ^ 64
    → Represents (fresh env c 75 seed h) (made env c 75 seed h got got') (λ i. [])
fresh-Represents env c seed {h} got got' ne room = record {
  struct = Holds-struct env c 75 seed h got got';
  unlocked = refl;
  recoverable = refl;
  bs = cleared env c 75 seed h;
  array = Holds-made env c 75 seed h got got';
  capacity_ne = ground arith;
  own = λ a. 0;
  table = record {
    sized = ground (arith, length-replicate (mul_size 32 c / 32) empty_bucket);
    headers = λ i. null;
    ends = λ i. null;
    places = λ i lt. record {
      bucket = empty_bucket;
      found = get_elem?-replicate (mul_size 32 c / 32) empty_bucket i (ground arith);
      slot = vacant refl refl refl refl refl;
      owned = tt;
    };
  };
}

abbrev pub no_keys : Dict
no_keys n = none

-- Where memory has room for two blocks and seven more for each call, `hmap_new_default` returns a
-- map, and over any sequence of calls of `hmap_set` with keys of new hashes and of `hmap_get`,
-- fewer than there are rounds, of which there are 2 ^ 64 at most, and with a load of at most 75,
-- the map replies as a dictionary from hashes to values that is empty at first.
pub new_map_run_refines :
    (env : Env) {limit : Ptr} (ops : List Op) {h : Heap} (top : Ptr)
    → Roomy env.alloc limit
    → Welcome env.sip 16 75 0 no_keys ops
    → length ops < env.rounds
    → env.rounds ≤ 2 ^ 64
    → 0 < top
    → top + 2 + 7 * length ops ≤ limit
    → Below h top
    → NewServes env h ops (serve env.sip no_keys ops).0 (serve env.sip no_keys ops).1
unfolding hmap_new_default find
new_map_run_refines env {limit} ops {h} top roomy welcome few bound pos under below =
    let room : top + 1 < limit = omega arith in
    let got = gets roomy pos (omega arith) below 352 in
    let below1 = raw-Below roomy pos (omega arith) below 352 in
    let pos1 : 0 < top + 1 = omega arith in
    let got' = gets roomy pos1 room below1 512 in
    let o = buckets (cleared env 16 75 default_seed h) in
    let below2 = filled-Below roomy pos1 room below1 512 o in
    record {
      map = fresh env 16 75 default_seed h;
      after = made env 16 75 default_seed h got got';
      runs = hmap_new-ok env 16 75 default_seed h got got';
      serves =
          map_run_refines env ops (λ i. []) no_keys (top + 2) roomy
            (wrap_siphash-runtime_hash env.sip)
            (fresh-Represents env 16 default_seed got got' (omega arith) (omega arith))
            (record { same = λ key. refl }) welcome (λ k. omega (arith, few)) bound (omega arith)
            under (λ q le. below2 q (omega arith));
    }
