-- ===== src/HashMap/Kept.antt =====
-- `hmap_get` after `hmap_resize`.
use neonrt.Base.{
  ℕ, suc, ◌+◌, ◌*◌, ◌/◌, ◌%◌, ◌^◌, ◌≡◌, ◌≢◌, ◌≤◌, ◌<◌, true, false, ◌&&◌, some, none, List, [],
  arith, length, ◌==◌, ltb,
}
use neonrt.Word.{mul_size}
use neonrt.Memory.{Ptr, Heap, ok}
use neonrt.Memory.Frame.{Below, Roomy}
use neonrt.Buffer.Compare.{runtime_hash}
use neonrt.HashMap.{Hmap, Env}
use neonrt.HashMap.Resize.{hmap_resize}
use neonrt.HashMap.Find.{find, or_null}
use neonrt.HashMap.Represent.{Contents, Represents}
use neonrt.HashMap.Session.{Got, hmap_get-Represents}
use neonrt.HashMap.Settle.{Valued}
use neonrt.HashMap.Scatter.{total, length-scatter}
use neonrt.HashMap.Located.{Located, find_kept}
use neonrt.HashMap.Grow.{regrown, hmap_resize-Resized}

-- A run of `hmap_resize` after which a key has the value `v`.
pub record Kept (depth : ℕ) (env : Env) (new_cap : ℕ) (m : Hmap) (h : Heap) (key : List ℕ) (v : Ptr)
    : Type 0 where
  pub after : Heap
  pub array : Ptr
  pub collisions : ℕ
  pub runs :
      hmap_resize (suc depth) env new_cap m h ≡ ok (tt, regrown array new_cap collisions m) after
  pub freed : after m.bucket_array ≡ none
  pub got : Got env key (regrown array new_cap collisions m) after v

-- Take a map with the hash function and the seed of `rt_hash_fn`, with no error kept, whose buckets
-- hold none, one or a list of keys each, every key in the bucket of its hash and with a value that
-- is no null pointer. Let there be fewer keys than rounds, of which there are 2 ^ 64 at most, and
-- let the new capacity be no 0, not over the bound of the map, of a size below 2 ^ 64, and enough
-- for the load to stay within the threshold. Where memory has room for the new array and seven
-- blocks for each key, `hmap_resize` succeeds, wherever the keys come to share a bucket: the map is
-- unlocked and has the new capacity, the old array is freed, and a `hmap_get` of any key returns
-- what the buckets of before have for it.
pub resize_then_get :
    (depth : ℕ) (env : Env) (new_cap : ℕ) (m : Hmap) (key : List ℕ) {limit : Ptr} {h : Heap}
    {contents : Contents} (top : Ptr)
    → Roomy env.alloc limit
    → Represents m h contents
    → ((k : List ℕ) → m.hash_fn k m.seed ≡ some (runtime_hash env.sip k))
    → ((i : ℕ) → Located env.sip m.capacity i (contents i))
    → ((i : ℕ) → Valued (contents i))
    → ((i : ℕ) → length (contents i) < env.rounds)
    → total m.capacity 0 contents < env.rounds
    → env.rounds ≤ 2 ^ 64
    → (m.last_error_code == 0) ≡ true
    → new_cap ≢ 0
    → new_cap * 32 < 2 ^ 64
    → (ltb 0 m.resize_bound && ltb m.resize_bound new_cap) ≡ false
    → ltb m.unhealthy_threshold (mul_size m.set 100 / new_cap) ≡ false
    → 0 < top
    → top + 1 + 7 * total m.capacity 0 contents ≤ limit
    → Below h top
    → Kept depth env new_cap m h key
        (or_null (find env.sip key (contents (runtime_hash env.sip key % m.capacity))))
resize_then_get depth env new_cap m key {contents} top roomy r hashes located some_values few fewer
      bound no_error nonempty small within healthy pos under below =
    let resized =
      hmap_resize-Resized depth env roomy new_cap (runtime_hash env.sip) top r hashes few
        (omega (arith, fewer, bound)) some_values nonempty small pos under below no_error within
        healthy in
    let short =
      length-scatter (runtime_hash env.sip) new_cap m.capacity 0 contents (λ i. [])
        (runtime_hash env.sip key % new_cap) in
    let got =
      hmap_get-Represents env resized.represents (hashes key) (omega (arith, short, fewer)) in
    let same = find_kept env.sip m.capacity new_cap key contents r.capacity_ne located in
    record {
      after = resized.after;
      array = resized.array;
      collisions = resized.collisions;
      runs = resized.runs;
      freed = resized.freed;
      got = rw same at got;
    }
