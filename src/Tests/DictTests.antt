-- ===== src/Tests/DictTests.antt =====
-- Maps with room for more keys, and a list of two keys.
use neonrt.Base.{
  ℕ, suc, if◌then◌else◌, ◌%◌, some, ◌≡◌, refl, true, false, none, List, [], ◌∷◌, arith, ◌==◌,
  replicate,
}
use neonrt.Memory.{Ptr, null, Heap, ok, fault, write, buckets}
use neonrt.Memory.Rules.{Holds}
use neonrt.Buffer.Compare.{runtime_hash, wrap_siphash-runtime_hash}
use neonrt.HashMap.{Hmap, empty_bucket, error_key_mismatch}
use neonrt.HashMap.Resize.{hmap_resize}
use neonrt.HashMap.Table.{hmap_new, hmap_free, hmap_get, hmap_set, hashmap_unset}
use neonrt.HashMap.Closed.{failed, refusal}
use neonrt.HashMap.Find.{or_null, find, answer, hmap_get_lem}
use neonrt.HashMap.Insert.{Inserted, grown, hmap_set_lem}
use neonrt.HashMap.Dict.{bind, Op, set, get, serve}
use neonrt.HashMap.Session.{Got}
use neonrt.HashMap.Default.{NewServes, no_keys, new_map_run_refines}
use neonrt.HashMap.Unset.{uncounted, unset_then_get}
use neonrt.HashMap.UnsetList.{First, unset_first_key}
use neonrt.HashMap.Chain.{find_loop}
use neonrt.LinkedList.Seg.{ll_node}
use neonrt.LinkedList.Add.{IsList}
use neonrt.Memory.Rules.{Holds}
use neonrt.HashMap.New.{array}
use neonrt.HashMap.Release.{new_then_free}
use neonrt.HashMap.Kept.{Kept, resize_then_get}
use neonrt.HashMap.FreeBuckets.{Released, hmap_free_lem}
use neonrt.HashMap.Shadow.{hmap_set_shadowed}
use neonrt.HashMap.Regrow.{stopped, with_new, new_array, hmap_resize-stale}
use neonrt.Tests.Fixtures.{memory, memory-IsBuff, pick}
use neonrt.Tests.Roomy.{
  env, echo, spacious, spacious-Roomy, differ, differ', small_map, one_key, small_map-Represents,
  memory-Below, small_map-Reaches, blank, blank_at,
}
use neonrt.Tests.ListMap.{
  list_map-Reaches, list_map, list_bucket, list_memory, list_memory-IsList, list_header, two_keys,
  two_keys-Entries, two_keys-Slot, list_map-Represents, list_memory-Below, hashed_map,
  hashed_map-Represents, two_at, two_at-Located, two_at-Valued, two_at-length,
}

-- Two keys set and one fetched.
abbrev calls : List Op
calls = set (1 ∷ []) 900 false ∷ set (2 ∷ []) 901 true ∷ get (1 ∷ []) ∷ []

new_map_run_refines_example :
    NewServes env (λ p. none) calls (serve echo no_keys calls).0 (serve echo no_keys calls).1
unfolding bind
new_map_run_refines_example =
    new_map_run_refines env calls 1 spacious-Roomy (refl, refl, (rw differ refl, refl, tt))
      (omega arith) (omega arith) (omega arith) (omega arith) (λ q le. refl)

hmap_set_lem_example : Inserted env (2 ∷ []) 901 false small_map memory one_key 1 52
unfolding find
hmap_set_lem_example =
    hmap_set_lem env (2 ∷ []) 901 false 52 spacious-Roomy small_map-Represents refl
      (rw differ' refl) (omega arith) refl (omega arith) (omega arith) memory-Below

hmap_get_lem_example :
    hmap_get env (1 ∷ []) list_map list_memory
    ≡ answer list_bucket two_keys (find echo (1 ∷ []) two_keys) list_map list_memory
hmap_get_lem_example = hmap_get_lem env list_map-Reaches refl two_keys-Slot (omega arith)

hmap_set_shadowed_example :
    (h' : Heap) × (hmap_set env (1 ∷ []) 5 true list_map list_memory
      ≡ ok (true, grown two_keys list_map) h')
    × Got env (1 ∷ []) (grown two_keys list_map) h' 900
unfolding find
hmap_set_shadowed_example =
    hmap_set_shadowed env (1 ∷ []) 5 900 true 54 spacious-Roomy list_map-Represents refl
      (omega arith) (ground arith) (omega arith) (omega arith) refl (omega arith) (omega arith)
      list_memory-Below

unset_first_key_example :
    (f : First list_memory 31 (1 ∷ []) 900) × (h' : Heap) × (hashmap_unset env
        (1 ∷ [])
        list_map
        list_memory
      ≡ ok (900, list_map) h')
    × ((q : Ptr) → h' q ≡ (if q == f.pair then none else list_memory q))
    × IsList h' 30 list_header ((31, 41) ∷ []) 42
    × Holds h' 31 (ll_node f.next f.pair)
    × ((other : List ℕ) (rounds : ℕ) → find_loop env.sip other (suc rounds) 31 h' ≡ fault)
    × (hmap_get env (1 ∷ []) list_map h' ≡ fault)
unset_first_key_example =
    unset_first_key env list_map-Reaches refl 8 refl refl refl list_memory-IsList two_keys-Entries
      refl (omega arith)

unset_then_get_example :
    (h' : Heap) × (hashmap_unset env (2 ∷ []) small_map memory ≡ ok (900, uncounted small_map) h')
    × (h' 50 ≡ none)
    × (h' 51 ≡ none)
    × (hmap_get env (2 ∷ []) (uncounted small_map) h'
        ≡ ok
            (null, failed "hmap_get" "key does not exist" error_key_mismatch (uncounted small_map))
            h')
unset_then_get_example = unset_then_get env small_map-Reaches refl refl memory-IsBuff refl refl refl

grown_at : (new_array env 4 small_map blank == null) ≡ false
unfolding blank spacious pick
grown_at = refl

resize_then_get_example :
    Kept 1 env 4 hashed_map list_memory
      (1 ∷ [])
      (or_null (find echo (1 ∷ []) (two_at (runtime_hash echo (1 ∷ []) % 1))))
resize_then_get_example =
    resize_then_get 1 env 4 hashed_map (1 ∷ []) 54 spacious-Roomy hashed_map-Represents
      (wrap_siphash-runtime_hash echo) two_at-Located two_at-Valued two_at-length (omega arith)
      (omega arith) refl (omega arith) (omega arith) refl refl (omega arith) (omega arith)
      list_memory-Below

hmap_free_lem_example : Released env list_map list_map-Represents
hmap_free_lem_example = hmap_free_lem env list_map list_map-Represents two_at-length

abbrev missed_map : Hmap
missed_map = record small_map { last_error_code = 2 }

hmap_resize-stale_example :
    (hmap_resize 2 env 4 missed_map blank
      ≡ ok
          (tt, stopped env 4 missed_map blank)
          (write (with_new env 4 missed_map blank) (new_array env 4 missed_map blank) none))
    × Holds
        (write (with_new env 4 missed_map blank) (new_array env 4 missed_map blank) none)
        20
        (buckets (replicate 2 empty_bucket))
    × (hmap_get env
          (1 ∷ [])
          (stopped env 4 missed_map blank)
          (write (with_new env 4 missed_map blank) (new_array env 4 missed_map blank) none)
        ≡ ok
            (null, refusal "hmap_get" (stopped env 4 missed_map blank))
            (write (with_new env 4 missed_map blank) (new_array env 4 missed_map blank) none))
hmap_resize-stale_example =
    hmap_resize-stale env 4 missed_map blank blank_at grown_at (omega arith) refl 1 (1 ∷ []) refl

struct_at : (spacious.malloc 352 memory == null) ≡ false
unfolding memory spacious pick
struct_at = refl

array_at : (array env 4 0 0 memory == null) ≡ false
unfolding memory spacious pick write
array_at = refl

new_then_free_example :
    (m : Hmap) × (h' h'' : Heap) × (hmap_new env 4 0 0 none memory ≡ ok (some m) h')
    × (hmap_free env m h' ≡ ok (tt, m) h'')
    × ((q : _) → h'' q ≡ memory q)
new_then_free_example =
    new_then_free env 4 0 0 memory struct_at array_at (omega arith) (omega arith)
