-- ===== src/Guest.antt =====
-- The map of `test_guest/guest.c`: how its main function makes it, and its unhealthy callback.
use neonrt.Base.{ℕ, ◌+◌, ◌^◌, ◌≡◌, ◌≤◌, ◌<◌, refl, none, some, Option, List, [], arith, length}
use neonrt.Word.{mul_size}
use neonrt.Memory.{Ptr, Heap, Run, Cmd, ok, fault, out_of_fuel, buckets}
use neonrt.Memory.Frame.{Below, Roomy, gets, raw-Below, filled-Below}
use neonrt.HashMap.{Hmap, HmapCmd, Env, ◌>>=◌, ◌>>◌, get, user_error_callback, user_unhealthy}
use neonrt.HashMap.Table.{hmap_new, hmap_set_error_callback, hmap_set_unhealthy_callback}
use neonrt.HashMap.New.{fresh, made, cleared, hmap_new-ok}
use neonrt.HashMap.Dict.{Dict, Op, Reply, serve}
use neonrt.HashMap.Default.{no_keys}
use neonrt.HashMap.Outgrow.{by_user}
use neonrt.HashMap.Growth.{Apt, blocks, Thriving, run-Thriving, fresh-Thrives}

-- Output is left out.
unfoldable pub hmap_unhealthy : (ℕ → HmapCmd (Unit {0})) → ℕ → HmapCmd (Unit {0})
hmap_unhealthy resize current_load = do hmap ← get; resize (mul_size hmap.capacity 2)

-- The callbacks of the program are numbered from 0, and it has one of each kind.
abbrev pub guest : Env → Env
unfolding hmap_unhealthy
guest env = record env { user_callback = λ n. hmap_unhealthy }

-- A null pointer in place of the map is followed.
abbrev pub on_map : Run (Option Hmap) → HmapCmd (Unit {0}) → Run ((Unit {0}) × Hmap)
on_map (ok (some m) h) c = c m h
on_map (ok none h) c = fault
on_map fault c = fault
on_map out_of_fuel c = out_of_fuel

unfoldable pub guest_map : Env → Cmd ((Unit {0}) × Hmap)
guest_map env h = on_map (hmap_new (guest env) 100 75 0 none h) (do
  hmap_set_error_callback (user_error_callback 0)
  hmap_set_unhealthy_callback (user_unhealthy 0))

-- The guest's map, replies of it, and what is in the end in it.
pub record Guested (env : Env) (h : Heap) (ops : List Op) (replies : List Reply) (d : Dict)
    (top : Ptr) : Type 0 where
  pub map : Hmap
  pub after : Heap
  pub runs : guest_map env h ≡ ok (tt, map) after
  pub large : map.capacity ≡ 100
  pub thriving : Thriving (guest env) map after ops replies d top

-- The map of the guest, which has 100 buckets at first and the guest's own unhealthy callback, works
-- as a dictionary from the hashes of keys to values however often its load goes over the threshold:
-- over any sequence of calls of `hmap_set` with keys of new hashes and values that are no null
-- pointers and of `hmap_get` with keys that have been set, it replies as the dictionary does. In the
-- end it is unlocked, with no error kept, its load is within the threshold of 75, and its buckets
-- agree with the dictionary. There must be fewer calls than rounds, of which there are 2 ^ 50 at
-- most, and memory must have room for two blocks and those of the calls.
pub guest_map_grows :
    (env : Env) {limit : Ptr} (ops : List Op) {h : Heap} (top : Ptr)
    → Roomy env.alloc limit
    → Apt env.sip no_keys ops
    → length ops < env.rounds
    → env.rounds ≤ 2 ^ 50
    → 0 < top
    → top + 2 + blocks 0 ops ≤ limit
    → Below h top
    → Guested env h ops
        (serve env.sip no_keys ops).0
        (serve env.sip no_keys ops).1
        (top + 2 + blocks 0 ops)
unfolding guest_map hmap_unhealthy hmap_set_error_callback hmap_set_unhealthy_callback
guest_map_grows env {limit} ops {h} top roomy apt walk bound pos under below =
    let room : top + 1 < limit = omega (arith, under) in
    let got = gets roomy pos (omega arith) below 352 in
    let below1 = raw-Below roomy pos (omega arith) below 352 in
    let pos1 : 0 < top + 1 = omega arith in
    let got' = gets roomy pos1 room below1 3200 in
    let below2 =
      filled-Below roomy pos1 room below1 3200 (buckets (cleared (guest env) 100 75 0 h)) in
    let thrives =
      fresh-Thrives (guest env) 100 0 (user_error_callback 0) (user_unhealthy 0) (top + 2) got got'
        refl (omega arith) (omega arith) (by_user 0 refl (λ resize load m k. refl))
        (λ q le. below2 q (omega arith)) in
    record {
      map = record (fresh (guest env) 100 75 0 h) {
        error_callback = user_error_callback 0;
        unhealthy_callback = user_unhealthy 0;
      };
      after = made (guest env) 100 75 0 h got got';
      runs = rw (hmap_new-ok (guest env) 100 75 0 h got got') refl;
      large = refl;
      thriving =
          run-Thriving (guest env) ops (λ i. []) no_keys 0 (top + 2) roomy thrives refl apt
            (omega (arith, walk)) bound (omega arith) under;
    }
