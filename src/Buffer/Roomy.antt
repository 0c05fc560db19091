-- ===== src/Buffer/Roomy.antt =====
-- `buff_new` where there is room.
use neonrt.Base.{ℕ, ◌+◌, ◌≡◌, ◌<◌, ◌≤◌, refl, List, arith, length, take, take-length}
use neonrt.Memory.{Ptr, block, Heap, ok, Allocator}
use neonrt.Memory.Frame.{
  Grows, Grows-trans, Grows-write_again, Below, Below-rewrite, Roomy, gets, raw-Below, raw-Grows,
  filled-Below, filled-Grows,
}
use neonrt.Memory.Rules.{allocate_unused}
use neonrt.Buffer.{buff_new}
use neonrt.Buffer.Rules.{KeyAt}
use neonrt.Buffer.New.{unleased, struct_at, made, buff_new-made, made-Created, with_bytes-Holds}

-- A run that returns a new buffer of `key`, in memory that has only grown, and by two addresses.
pub record BuffMade (a : Allocator) (key : List ℕ) (h : Heap) (top : Ptr) : Type 0 where
  pub self : Ptr
  pub after : Heap
  pub runs : buff_new a key (length key) h ≡ ok self after
  pub holds : KeyAt after self key
  pub grows : Grows h after
  pub below : Below after (top + 2)

pub buff_new-BuffMade :
    {a : Allocator} {limit : Ptr} (key : List ℕ) {h : Heap} (top : Ptr)
    → Roomy a limit
    → 0 < top
    → top + 1 < limit
    → Below h top
    → BuffMade a key h top
buff_new-BuffMade {a} {limit} key {h} top roomy pos under below =
    let got = gets roomy pos (omega arith) below 40 in
    let below1 = raw-Below roomy pos (omega arith) below 40 in
    let grows1 = raw-Grows roomy pos (omega arith) below 40 in
    let pos1 : 0 < top + 1 = omega arith in
    let got' = gets roomy pos1 under below1 (length key) in
    let o = block (take (length key) key) in
    let below2 = filled-Below roomy pos1 under below1 (length key) o in
    let grows2 = filled-Grows roomy pos1 under below1 (length key) o in
    let enough : length key ≤ length key = omega arith in
    let c = made-Created a key (length key) h enough got got' in
    record {
      self = struct_at a key (length key) h;
      after = made a key (length key) h;
      runs = buff_new-made a key (length key) h enough got got';
      holds = record {
        struct = unleased c.at (length key);
        bytes = take (length key) key;
        is = record {
          struct = c.struct;
          stored = c.stored;
          len_in = ground (arith, take-length key);
        };
        holds = rw (take-length key, take-length key) refl;
        unlocked = refl;
      };
      grows =
          Grows-write_again (struct_at a key (length key) h) _ (Grows-trans grows1 grows2)
            (allocate_unused a 40 h got);
      below = λ q le.
          Below-rewrite _ below2 (with_bytes-Holds a key (length key) h enough got got') q
            (omega arith);
    }
