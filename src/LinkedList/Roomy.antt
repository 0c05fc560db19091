-- ===== src/LinkedList/Roomy.antt =====
-- `ll_new` and an append where there is room.
use neonrt.Base.{ℕ, ◌+◌, ◌^◌, ◌≡◌, ◌≢◌, ◌<◌, refl, false, none, some, [], arith, length, ◌==◌}
use neonrt.Word.{add_size}
use neonrt.Memory.{Ptr, null, LinkedList, list, buckets, Heap, write, ok, Allocator}
use neonrt.Memory.Rules.{allocate-ok, allocate_unused}
use neonrt.Memory.Frame.{
  Frame, Grows, Grows-trans, Below, Roomy, gets, filled, filled-Holds, filled-Below, filled-Grows,
  filled-init, Grows-Holds, Grows-unused,
}
use neonrt.LinkedList.{ll_new, ll_add_node, append}
use neonrt.LinkedList.Seg.{Nodes, ll_node, nil}
use neonrt.LinkedList.Node.{new_ll_node-ok}
use neonrt.LinkedList.Add.{
  IsList, nodes, appended, ll_add_node-append, appended-IsList, self-ne-last,
}

-- The header of a list of the one node.
abbrev pub one_node : Ptr → LinkedList
one_node p = record { first = p; last = p; len = 1 }

-- A run that returns a new list of the one payload `v`, in memory that has only grown.
pub record ListMade (a : Allocator) (v : Ptr) (h : Heap) (top : Ptr) : Type 0 where
  pub self : Ptr
  pub last : Ptr
  pub after : Heap
  pub runs : ll_new a v h ≡ ok self after
  pub is : IsList after self (one_node last) [] v
  pub unused_self : h self ≡ none
  pub unused_last : h last ≡ none
  pub grows : Grows h after
  pub below : Below after (top + 2)

pub ll_new-ListMade :
    {a : Allocator} {limit : Ptr} (v : Ptr) {h : Heap} (top : Ptr)
    → Roomy a limit
    → 0 < top
    → top + 1 < limit
    → Below h top
    → v ≢ null
    → ListMade a v h top
unfolding ll_new
ll_new-ListMade {a} {limit} v {h} top roomy pos under below ne =
    let under0 : top < limit = omega arith in
    let pos1 : 0 < top + 1 = omega arith in
    let got = gets roomy pos under0 below 16 in
    let node' = ll_node null v in
    let below1 = filled-Below roomy pos under0 below 16 node' in
    let grows1 = filled-Grows roomy pos under0 below 16 node' in
    let holds1 = filled-Holds roomy pos under0 below 16 node' in
    let h1 = filled roomy pos under0 below 16 node' in
    let got' = gets roomy pos1 under below1 24 in
    let header = list (one_node (a.malloc 16 h)) in
    let grows2 = filled-Grows roomy pos1 under below1 24 header in
    let unused' = allocate_unused a 24 h1 got' in
    let some_payload : (v == null) ≡ false = ground arith in
    record {
      self = a.malloc 24 h1;
      last = a.malloc 16 h;
      after = filled roomy pos1 under below1 24 header;
      runs =
          rw
            (
              some_payload,
              new_ll_node-ok a h v got,
              got,
              allocate-ok a 24 h1 got',
              got',
              filled-init roomy pos1 under below1 24 header (omega arith),
            )
            refl;
      is = record {
        header = filled-Holds roomy pos1 under below1 24 header;
        chain = nil;
        back = Grows-Holds grows2 holds1;
        distinct = refl;
        count = refl;
      };
      unused_self = Grows-unused _ grows1 unused';
      unused_last = allocate_unused a 16 h got;
      grows = Grows-trans grows1 grows2;
      below = λ q le. filled-Below roomy pos1 under below1 24 header q (omega arith);
    }

-- A run that appends the payload `val` and leaves all but the list's header and last node.
pub record Appended (a : Allocator) (val : Ptr) (h : Heap) (self : Ptr) (l : LinkedList)
    (front : Nodes) (v top : Ptr) : Type 0 where
  pub last : Ptr
  pub len : ℕ
  pub after : Heap
  pub runs : ll_add_node a self val append 0 h ≡ ok len after
  pub is :
      IsList after self (record { first = l.first; last = last; len = len }) (nodes l front v) val
  pub unused_last : h last ≡ none
  pub frame : Frame h after self l.last
  pub arrays : (q : Ptr) (bs : _) → h q ≡ some (buckets bs) → after q ≡ some (buckets bs)
  pub below : Below after (top + 1)

pub ll_add_node-Appended :
    {a : Allocator} {limit : Ptr} (val : Ptr) {h : Heap} {self : Ptr} {l : LinkedList}
    {front : Nodes} {v : Ptr} (top : Ptr)
    → Roomy a limit
    → 0 < top
    → top < limit
    → Below h top
    → IsList h self l front v
    → length front + 2 < 2 ^ 64
    → Appended a val h self l front v top
unfolding write
ll_add_node-Appended {a} {limit} val {h} {self} {l} {front} {v} top roomy pos under below is room =
    let got = gets roomy pos under below 16 in
    let fresh = allocate_unused a 16 h got in
    let apart = self-ne-last a h is got val 0 in
    let below1 = filled-Below roomy pos under below 16 (ll_node null val) in
    record {
      last = a.malloc 16 h;
      len = add_size l.len 1;
      after = appended a h is got val 0;
      runs = ll_add_node-append a h is got val 0;
      is = appended-IsList a h is got val 0 room;
      unused_last = fresh;
      frame = record {
        payload = λ q o e kind. ground (arith, fresh, is.header.at, is.back.at);
        struct = λ q b e. (b.ref_ct, ground (arith, fresh, is.header.at, is.back.at));
        header = λ q l' ne e. ground (arith, fresh, is.header.at, is.back.at);
        inner = λ q n ne e. ground (arith, fresh, is.header.at, is.back.at);
        end = λ q n ne e. ground (arith, fresh, is.header.at, is.back.at);
      };
      arrays = λ q bs e. ground (arith, fresh, is.header.at, is.back.at);
      below = λ q le. ground (arith, below1 q, is.header.at, is.back.at, below q);
    }
