-- ===== src/HashMap/Outgrow.antt =====
-- `hmap_set` of a key that takes the load of a map over its threshold.
use neonrt.Base.{
  ℕ, suc, ◌+◌, ◌*◌, ◌/◌, ◌%◌, ◌^◌, ◌≡◌, ◌≢◌, ◌≤◌, ◌<◌, refl, ap, ◌∙◌, Bool, true, false, some, none,
  List, [], ◌∷◌, ◌++◌, length, arith, ◌==◌, ltb,
}
use neonrt.Word.{add_size, mul_size}
use neonrt.Memory.{Ptr, Heap, Run, ok}
use neonrt.Memory.Frame.{Below, Roomy}
use neonrt.HashMap.{
  Hmap, HmapCmd, pure, and_then, Env, UnhealthyCallback, default_unhealthy, user_unhealthy,
  threshold_disable,
}
use neonrt.HashMap.Check.{hmap_check}
use neonrt.HashMap.Resize.{
  default_unhealthy_callback, call_unhealthy, update_load, hmap_resize, update_load_factor,
}
use neonrt.HashMap.Table.{hmap_set}
use neonrt.HashMap.Find.{find}
use neonrt.HashMap.Represent.{Contents, put, Represents}
use neonrt.HashMap.Settle.{Valued}
use neonrt.HashMap.Scatter.{scatter, total}
use neonrt.HashMap.Insert.{load_of, grown, counted, add-Represents}
use neonrt.HashMap.Grow.{regrown, hmap_resize-Resized}

-- The default callback, or one of the program's that doubles the capacity whenever it is called.
pub data Doubles (env : Env) (c : UnhealthyCallback) : Type 0 where
  by_default : c ≡ default_unhealthy → Doubles env c
  by_user :
      (n : ℕ)
      → c ≡ user_unhealthy n
      → ((resize : ℕ → HmapCmd (Unit {0})) (load : ℕ) (m : Hmap) (h : Heap)
          → env.user_callback n resize load m h ≡ resize (mul_size m.capacity 2) m h)
      → Doubles env c

-- Over the threshold the callback doubles the capacity.
update_load-over :
    (env : Env) (resize : ℕ → HmapCmd (Unit {0})) (m : Hmap) (h : Heap)
    → m.capacity ≢ 0
    → m.locked ≡ false
    → m.unrecoverable_error ≡ false
    → Doubles env m.unhealthy_callback
    → (m.unhealthy_threshold == threshold_disable) ≡ false
    → ltb m.unhealthy_threshold (mul_size m.set 100 / m.capacity) ≡ true
    → update_load env resize m h
      ≡ resize
          (mul_size m.capacity 2)
          (record m { load_factor = mul_size m.set 100 / m.capacity })
          h
unfolding update_load call_unhealthy default_unhealthy_callback hmap_check
update_load-over env resize m h nonempty unlocked recoverable (by_default default) enabled over =
    let ne : (m.capacity == 0) ≡ false = ground arith in
    rw (ne, over, default, unlocked, recoverable, enabled) (rw over refl)
update_load-over env resize m h nonempty unlocked recoverable (by_user n user doubles) enabled
      over =
    let ne : (m.capacity == 0) ≡ false = ground arith in rw (ne, over, user) (doubles resize _ _ h)

resize-over :
    (depth : ℕ) (env : Env) (m : Hmap) (h : Heap)
    → m.capacity ≢ 0
    → m.locked ≡ false
    → m.unrecoverable_error ≡ false
    → Doubles env m.unhealthy_callback
    → (m.unhealthy_threshold == threshold_disable) ≡ false
    → ltb m.unhealthy_threshold (mul_size m.set 100 / m.capacity) ≡ true
    → env.rounds ≡ suc depth
    → m.capacity * 64 < 2 ^ 64
    → update_load_factor env m h
      ≡ hmap_resize
          (suc depth)
          env
          (m.capacity * 2)
          (record m { load_factor = mul_size m.set 100 / m.capacity })
          h
unfolding update_load_factor
resize-over depth env m h nonempty unlocked recoverable default enabled over rounds small =
    let loaded = record m { load_factor = mul_size m.set 100 / m.capacity } in
    let doubled : mul_size m.capacity 2 ≡ m.capacity * 2 = omega (arith, small) in
    update_load-over env (hmap_resize env.rounds env) m h nonempty unlocked recoverable default
      enabled over
    ∙ ap (λ (n : ℕ). hmap_resize n env (mul_size m.capacity 2) loaded h) rounds
    ∙ ap (λ (c : ℕ). hmap_resize (suc depth) env c loaded h) doubled

-- A run of `hmap_set` that returns true, adds an entry and doubles the capacity of the map.
pub record Outgrown (env : Env) (key : List ℕ) (value : Ptr) (allow_update : Bool) (m : Hmap)
    (h : Heap) (contents : Contents) (es : List ((List ℕ) × Ptr)) (top : Ptr) : Type 0 where
  pub after : Heap
  pub array : Ptr
  pub collisions : ℕ
  pub runs :
      hmap_set env key value allow_update m h
      ≡ ok (true, regrown array (m.capacity * 2) collisions (grown es m)) after
  pub represents :
      Represents (regrown array (m.capacity * 2) collisions (grown es m)) after contents
  pub below : Below after top

pub outgrow-Represents :
    (depth : ℕ) (env : Env) (key : List ℕ) (value : Ptr) (allow_update : Bool) {limit : Ptr}
    {m : Hmap} {h : Heap} {contents : Contents} (digest : List ℕ → ℕ) (top : Ptr)
    → Roomy env.alloc limit
    → Represents m h contents
    → ((k : List ℕ) → m.hash_fn k m.seed ≡ some (digest k))
    → env.rounds ≡ suc depth
    → find env.sip key (contents (digest key % m.capacity)) ≡ none
    → length (contents (digest key % m.capacity)) + 1 < 2 ^ 64
    → let now =
        put
          (digest key % m.capacity)
          (contents (digest key % m.capacity) ++ ((key, value) ∷ []))
          contents in
      ((k : ℕ) → length (now k) < env.rounds)
      → total m.capacity 0 now < 2 ^ 64
      → ((k : ℕ) → Valued (now k))
      → Doubles env m.unhealthy_callback
      → (m.unhealthy_threshold == threshold_disable) ≡ false
      → (m.last_error_code == 0) ≡ true
      → (m.resize_bound == 0) ≡ true
      → ltb m.unhealthy_threshold (load_of m) ≡ true
      → m.capacity * 64 < 2 ^ 64
      → ltb m.unhealthy_threshold (mul_size (add_size m.set 1) 100 / (m.capacity * 2)) ≡ false
      → 0 < top
      → top + 8 + 7 * total m.capacity 0 now ≤ limit
      → Below h top
      → Outgrown env key value allow_update m h
          (scatter digest (m.capacity * 2) m.capacity 0 now (λ i. []))
          (contents (digest key % m.capacity))
          (top + 8 + 7 * total m.capacity 0 now)
outgrow-Represents depth env key value allow_update {m} {h} {contents} digest top roomy r hashes
      rounds missing room few fits some_values default enabled no_error unbounded over small healthy
      pos under below =
    let es = contents (digest key % m.capacity) in
    let s =
      add-Represents env key value allow_update top roomy r (hashes key) (λ one. missing) room pos
        (omega arith) below in
    let resized =
      hmap_resize-Resized depth env roomy (m.capacity * 2) digest (top + 7)
        (s.represents (load_of m)) hashes few fits some_values (ground (arith, r.capacity_ne))
        (omega (arith, small)) (omega arith) (omega arith) s.below no_error (ground arith)
        healthy in
    record {
      after = resized.after;
      array = resized.array;
      collisions = resized.collisions;
      runs =
          s.runs
          ∙ ap (λ (r' : Run (Unit {0} × Hmap)). and_then r' (λ _. pure true))
              (resize-over depth env (counted es m) s.after r.capacity_ne r.unlocked r.recoverable
                  default enabled over rounds small
                ∙ resized.runs);
      represents = resized.represents;
      below = λ q le. resized.below q (omega (arith, le));
    }
