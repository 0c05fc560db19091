-- ===== src/HashMap/Session.antt =====
-- Sequences of calls of `hmap_set` and `hmap_get`.
use Prim.Native.String.{String}
use neonrt.Base.{
  ℕ, ◌+◌, ◌*◌, ◌%◌, ◌^◌, ◌≡◌, ◌≤◌, ◌<◌, refl, sym, ap, ◌∙◌, true, Option, none, some, List, [], ◌∷◌,
  ◌++◌, length, length-append, arith, ◌==◌, Bool-cases, inl, inr,
}
use neonrt.Memory.{Ptr, Heap, ok}
use neonrt.Memory.Frame.{Below, Roomy}
use neonrt.SipWrapper.{SipHash}
use neonrt.Buffer.Compare.{runtime_hash}
use neonrt.HashMap.{Hmap, HmapCmd, pure, ◌>>=◌, Env, Report, error_key_mismatch}
use neonrt.HashMap.Closed.{failed}
use neonrt.HashMap.Table.{hmap_get, hmap_set}
use neonrt.HashMap.Slot.{Entry, Slot, vacant, single, chain}
use neonrt.HashMap.Find.{find, or_null, answer, hmap_get_lem, find-snoc_new, find-snoc_other}
use neonrt.HashMap.Represent.{Contents, put, Represents, Represents-Reaches}
use neonrt.HashMap.Insert.{hmap_set_lem}
use neonrt.HashMap.Dict.{Dict, bind, Op, set, get, Reply, stored, fetched, serve, Welcome, Agrees}

unfoldable pub run : Env → List Op → HmapCmd (List Reply)
run env [] = pure []
run env (set key value allow_update ∷ ops) = do
  result ← hmap_set env key value allow_update
  replies ← run env ops
  pure (stored result ∷ replies)
run env (get key ∷ ops) = do
  value ← hmap_get env key
  replies ← run env ops
  pure (fetched value ∷ replies)

-- A map with another error kept.
abbrev noted : String × String → ℕ → List Report → Hmap → Hmap
noted msg code reports m = record m {
  last_error_msg = msg;
  last_error_code = code;
  reports = reports;
}

-- A run of `hmap_get` that returns `v` and changes no more than the errors kept.
pub record Got (env : Env) (key : List ℕ) (m : Hmap) (h : Heap) (v : Ptr) : Type 0 where
  pub msg : String × String
  pub code : ℕ
  pub reports : List Report
  pub runs : hmap_get env key m h ≡ ok (v, noted msg code reports m) h

answer-Got :
    (env : Env) {key : List ℕ} {m : Hmap} {h : Heap} {b : _} {header end : Ptr} {es : List Entry}
    → Slot h b header end es
    → (found : Option Ptr) → hmap_get env key m h ≡ answer b es found m h
    → Got env key m h (or_null found)
answer-Got env {m} s (some v) runs = record {
  msg = m.last_error_msg;
  code = m.last_error_code;
  reports = m.reports;
  runs = runs;
}
answer-Got env {m} (vacant s l plain empty bare) none runs =
    let m' = failed "hmap_get" "key does not exist" error_key_mismatch m in
    record {
      msg = m'.last_error_msg;
      code = m'.last_error_code;
      reports = m'.reports;
      runs = runs ∙ rw plain refl;
    }
answer-Got env {m} (single s l plain k is) none runs =
    let m' = failed "hmap_get" "key does not match" error_key_mismatch m in
    record {
      msg = m'.last_error_msg;
      code = m'.last_error_code;
      reports = m'.reports;
      runs = runs ∙ rw plain refl;
    }
answer-Got env {m} (chain complex head end is es) none runs = record {
  msg = m.last_error_msg;
  code = m.last_error_code;
  reports = m.reports;
  runs = runs ∙ rw complex refl;
}

pub hmap_get-Represents :
    (env : Env) {key : List ℕ} {m : Hmap} {h : Heap} {contents : Contents} {digest : ℕ}
    → Represents m h contents
    → m.hash_fn key m.seed ≡ some digest
    → length (contents (digest % m.capacity)) < env.rounds
    → Got env key m h (or_null (find env.sip key (contents (digest % m.capacity))))
hmap_get-Represents env {key} {m} {contents} {digest} r hashes room =
    let p = r.places (digest % m.capacity) (ground (arith, r.capacity_ne)) in
    answer-Got env p.slot (find env.sip key (contents (digest % m.capacity)))
      (hmap_get_lem env (Represents-Reaches r hashes) p.found p.slot room)

pub Agrees-put :
    (sip : SipHash) (key : List ℕ) (value : Ptr) (capacity : ℕ) (contents : Contents) (d : Dict)
    → Agrees sip capacity contents d
    → d (runtime_hash sip key) ≡ none
    → Agrees sip capacity
        (put
          (runtime_hash sip key % capacity)
          (contents (runtime_hash sip key % capacity) ++ ((key, value) ∷ []))
          contents)
        (bind (runtime_hash sip key) value d)
unfolding put bind
Agrees-put sip key value capacity contents d a fresh = record {
  same = λ key'. elim (Bool-cases (runtime_hash sip key' == runtime_hash sip key)) [
    | inl e ↦
        let e' : runtime_hash sip key' ≡ runtime_hash sip key = ground arith in
        let here : (runtime_hash sip key' % capacity == runtime_hash sip key % capacity) ≡ true =
          ground arith in
        let missing : find sip key' (contents (runtime_hash sip key % capacity)) ≡ none =
          ap (λ (n : ℕ). find sip key' (contents (n % capacity))) (sym e')
          ∙ (a.same key' ∙ (ap d e' ∙ fresh)) in
        rw (here, e) (find-snoc_new sip key' key value _ missing (ground arith))
    | inr ne ↦
        elim (Bool-cases (runtime_hash sip key' % capacity == runtime_hash sip key % capacity)) [
          | inl here ↦
              let e' : runtime_hash sip key % capacity ≡ runtime_hash sip key' % capacity =
                ground arith in
              rw (here, ne)
                (find-snoc_other sip key' key value _ (ground arith)
                  ∙ (ap (λ (n : ℕ). find sip key' (contents n)) e' ∙ a.same key'))
          | inr away ↦ rw (away, ne) (a.same key')
        ]
  ];
}

-- A run of calls that replies as the dictionary does, on a map whose contents then agree with the
-- dictionary in the end.
pub record Serves (env : Env) (m : Hmap) (h : Heap) (ops : List Op) (replies : List Reply)
    (d : Dict) : Type 0 where
  pub map : Hmap
  pub after : Heap
  pub contents : Contents
  pub runs : run env ops m h ≡ ok (replies, map) after
  pub represents : Represents map after contents
  pub agrees : Agrees env.sip m.capacity contents d

pub noted-Represents :
    {m : Hmap} {h : Heap} {contents : Contents} (msg : String × String) (code : ℕ)
    (reports : List Report)
    → Represents m h contents
    → Represents (noted msg code reports m) h contents
noted-Represents msg code reports r = record {
  struct = r.struct;
  unlocked = r.unlocked;
  recoverable = r.recoverable;
  bs = r.bs;
  array = r.array;
  capacity_ne = r.capacity_ne;
  own = r.own;
  table = r.table;
}

-- No bucket comes to more entries than there are rounds for.
abbrev pub Short : ℕ → Contents → List Op → Type 0
Short rounds contents ops = (k : ℕ) → length (contents k) + length ops < rounds

Short-put :
    (rounds k : ℕ) (contents : Contents) (op : Op) (ops : List Op) (e : Entry)
    → Short rounds contents (op ∷ ops)
    → Short rounds (put k (contents k ++ (e ∷ [])) contents) ops
unfolding put
Short-put rounds k contents op ops e short i = elim (Bool-cases (i == k)) [
  | inl t ↦ rw t (omega (arith, short k, length-append (contents k) (e ∷ [])))
  | inr t ↦ rw t (omega (arith, short i))
]

-- Take a map with the hash function and the seed of `rt_hash_fn`, whose buckets agree with a dictionary
-- from hashes to values. Over any sequence of calls of `hmap_set` with keys of new hashes and of
-- `hmap_get`, in which the load stays within the threshold, memory has room, and no bucket comes to
-- more entries than there are rounds, the map replies as the dictionary does, whichever keys share a
-- bucket, and its buckets then agree with the dictionary that the sets extend.
pub map_run_refines :
    (env : Env) {limit : Ptr} (ops : List Op) {m : Hmap} {h : Heap} (contents : Contents) (d : Dict)
    (top : Ptr)
    → Roomy env.alloc limit
    → ((key : List ℕ) → m.hash_fn key m.seed ≡ some (runtime_hash env.sip key))
    → Represents m h contents
    → Agrees env.sip m.capacity contents d
    → Welcome env.sip m.capacity m.unhealthy_threshold m.set d ops
    → Short env.rounds contents ops
    → env.rounds ≤ 2 ^ 64
    → 0 < top
    → top + 7 * length ops ≤ limit
    → Below h top
    → Serves env m h ops (serve env.sip d ops).0 (serve env.sip d ops).1
unfolding run serve
map_run_refines env [] {m} {h} contents d top roomy hashes r a welcome short bound pos under below =
    record { map = m; after = h; contents = contents; runs = refl; represents = r; agrees = a }
map_run_refines env (set key value allow_update ∷ ops) {m} {h} contents d top roomy hashes r a
      welcome short bound pos under below =
    let hash = runtime_hash env.sip key in
    let k = hash % m.capacity in
    let step =
      hmap_set_lem env key value allow_update top roomy r (hashes key) (a.same key ∙ welcome.0)
        (omega (arith, short k)) welcome.1 pos (omega arith) below in
    let rest =
      map_run_refines env ops (put k (contents k ++ ((key, value) ∷ [])) contents)
        (bind hash value d) (top + 7) roomy hashes step.represents
        (Agrees-put env.sip key value m.capacity contents d a welcome.0) welcome.2
        (Short-put env.rounds k contents (set key value allow_update) ops (key, value) short) bound
        (omega arith) (omega arith) step.below in
    record {
      map = rest.map;
      after = rest.after;
      contents = rest.contents;
      runs = rw (step.runs, rest.runs) refl;
      represents = rest.represents;
      agrees = rest.agrees;
    }
map_run_refines env (get key ∷ ops) {m} {h} contents d top roomy hashes r a welcome short bound pos
      under below =
    let k = runtime_hash env.sip key % m.capacity in
    let step = hmap_get-Represents env r (hashes key) (omega (arith, short k)) in
    let rest =
      map_run_refines env ops contents d top roomy hashes
        (noted-Represents step.msg step.code step.reports r) a welcome (λ i. omega (arith, short i))
        bound pos (omega arith) below in
    record {
      map = rest.map;
      after = rest.after;
      contents = rest.contents;
      runs = rw (step.runs, rest.runs, a.same key) refl;
      represents = rest.represents;
      agrees = rest.agrees;
    }
