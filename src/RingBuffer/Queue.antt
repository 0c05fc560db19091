-- ===== src/RingBuffer/Queue.antt =====
-- The queue of bytes that a ring stands for, and what its clients ask of it.
use neonrt.Base.{ℕ, ◌-◌, ◌≤◌, ◌<◌, Bool, List, [], ◌∷◌, ◌++◌, length, take, drop}
use neonrt.Base.{leb, if◌then◌else◌}

abbrev pub Queue : Type 0
Queue = List ℕ

-- A write of bytes, and a read of a number of bytes into a destination.
pub data Op : Type 0 where
  put : List ℕ → Op
  get : ℕ → List ℕ → Op

-- Whether the bytes were written; the number of bytes read, and the destination.
pub data Reply : Type 0 where
  written : Bool → Reply
  fetched : ℕ → List ℕ → Reply

-- The queue after a write: all of the bytes, or none of them.
abbrev pub put_bytes : ℕ → Queue → List ℕ → Queue
put_bytes capacity q bytes = if leb (length bytes) (capacity - length q) then q ++ bytes else q

-- The replies, and the queue in the end.
unfoldable pub serve : ℕ → Queue → List Op → List Reply × Queue
serve capacity q [] = ([], q)
serve capacity q (put bytes ∷ ops) =
    let (replies, end) = serve capacity (put_bytes capacity q bytes) ops in
    (written (leb (length bytes) (capacity - length q)) ∷ replies, end)
serve capacity q (get len dst ∷ ops) =
    let (replies, end) = serve capacity (drop len q) ops in
    (fetched len (take len q ++ drop len dst) ∷ replies, end)

-- Each read asks for fewer bytes than are held, and its destination has room for them.
abbrev pub Modest : ℕ → Queue → List Op → Type 0
Modest capacity q [] = Unit {0}
Modest capacity q (put bytes ∷ ops) = Modest capacity (put_bytes capacity q bytes) ops
Modest capacity q (get len dst ∷ ops) =
    (len ≤ length dst) × (len < length q) × Modest capacity (drop len q) ops
