-- ===== src/HashMap/Dict.antt =====
-- What a hash map promises its clients: a dictionary from the hashes of keys to values.
use neonrt.Base.{
  ℕ, ◌/◌, ◌%◌, ◌≡◌, Bool, true, false, Option, none, some, List, [], ◌∷◌, ◌==◌, ltb, if◌then◌else◌,
}
use neonrt.Word.{add_size, mul_size}
use neonrt.Memory.{Ptr}
use neonrt.SipWrapper.{SipHash}
use neonrt.Buffer.Compare.{runtime_hash}
use neonrt.HashMap.Find.{find, or_null}
use neonrt.HashMap.Represent.{Contents}

abbrev pub Dict : Type 0
Dict = ℕ → Option Ptr

unfoldable pub bind : ℕ → Ptr → Dict → Dict
bind hash value d n = if n == hash then some value else d n

-- A call of `hmap_set` with its three arguments, and one of `hmap_get`.
pub data Op : Type 0 where
  set : List ℕ → Ptr → Bool → Op
  get : List ℕ → Op

pub data Reply : Type 0 where
  stored : Bool → Reply
  fetched : Ptr → Reply

module _ (sip : SipHash) where
  unfoldable pub serve : Dict → List Op → List Reply × Dict
  serve d [] = ([], d)
  serve d (set key value allow_update ∷ ops) =
      let (replies, end) = serve (bind (runtime_hash sip key) value d) ops in
      (stored true ∷ replies, end)
  serve d (get key ∷ ops) =
      let (replies, end) = serve d ops in
      (fetched (or_null (d (runtime_hash sip key))) ∷ replies, end)

  -- Each key that is set is new, and no set takes the load over the threshold of the map.
  abbrev pub Welcome : (capacity threshold set_before : ℕ) → Dict → List Op → Type 0
  Welcome capacity threshold set_before d [] = Unit {0}
  Welcome capacity threshold set_before d (set key value allow_update ∷ ops) =
      (d (runtime_hash sip key) ≡ none)
      × (ltb threshold (mul_size (add_size set_before 1) 100 / capacity) ≡ false)
      × Welcome capacity threshold (add_size set_before 1) (bind (runtime_hash sip key) value d) ops
  Welcome capacity threshold set_before d (get key ∷ ops) =
      Welcome capacity threshold set_before d ops

  -- The contents of the buckets as a dictionary.
  pub record Agrees (capacity : ℕ) (contents : Contents) (d : Dict) : Type 0 where
    pub same :
        (key : List ℕ)
        → find sip key (contents (runtime_hash sip key % capacity)) ≡ d (runtime_hash sip key)
