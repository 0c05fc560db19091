-- ===== src/HashMap/Lifetime.antt =====
-- A map from its creation, over the calls of its clients, to its release.
use neonrt.Base.{◌+◌, ◌^◌, ◌≡◌, ◌≤◌, ◌<◌, some, List, arith, length}
use neonrt.Memory.{Ptr, Heap, ok}
use neonrt.Memory.Frame.{Below, Roomy}
use neonrt.HashMap.{Hmap, Env}
use neonrt.HashMap.Table.{hmap_new_default}
use neonrt.HashMap.Represent.{Contents, Represents}
use neonrt.HashMap.Dict.{Dict, Op, Reply, serve, Agrees}
use neonrt.HashMap.Session.{run}
use neonrt.HashMap.Default.{no_keys}
use neonrt.HashMap.FreeBuckets.{Released, hmap_free_lem}
use neonrt.HashMap.Growth.{Apt, blocks, new_map_grows}

-- `hmap_new_default`, calls that get these replies, and `hmap_free` without a fault.
pub record Lived (env : Env) (h : Heap) (ops : List Op) (replies : List Reply) (d : Dict)
    : Type 0 where
  pub map : Hmap
  pub created : Heap
  pub runs_new : hmap_new_default env h ≡ ok (some map) created
  pub last : Hmap
  pub used : Heap
  pub runs : run env ops map created ≡ ok (replies, last) used
  pub contents : Contents
  pub represents : Represents last used contents
  pub agrees : Agrees env.sip last.capacity contents d
  pub released : Released env last represents

-- For any calls of `hmap_set` with keys of new hashes and values that are no null pointers and of
-- `hmap_get` with keys that have been set, a map that `hmap_new_default` creates, that the calls
-- use, and that `hmap_free` then releases never causes a fault and replies to every call as the
-- dictionary does, however often it grows. What its buckets hold before the release agrees with the
-- dictionary, and the release frees its struct, its last array and all parts of its lists, and
-- leaves the buffers of the keys allocated. There must be fewer calls than rounds, of which there
-- are 2 ^ 50 at most, and memory must have room for two blocks and those of the calls.
pub map_lifetime :
    (env : Env) {limit : Ptr} (ops : List Op) {h : Heap} (top : Ptr)
    → Roomy env.alloc limit
    → Apt env.sip no_keys ops
    → length ops < env.rounds
    → env.rounds ≤ 2 ^ 50
    → 0 < top
    → top + 2 + blocks 0 ops ≤ limit
    → Below h top
    → Lived env h ops (serve env.sip no_keys ops).0 (serve env.sip no_keys ops).1
map_lifetime env ops top roomy apt walk bound pos under below =
    let n = new_map_grows env ops top roomy apt walk bound pos under below in
    let t = n.thriving.thrives in
    record {
      map = n.map;
      created = n.after;
      runs_new = n.runs;
      last = n.thriving.map;
      used = n.thriving.after;
      runs = n.thriving.runs;
      contents = n.thriving.contents;
      represents = t.represents;
      agrees = t.agrees;
      released =
          hmap_free_lem env n.thriving.map t.represents
            (λ k. omega (arith, t.short k, n.thriving.counted, n.empty, walk));
    }
