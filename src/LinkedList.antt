-- ===== src/LinkedList.antt =====
-- containers/linked_list.c: singly linked lists of pointers, with a header that caches the length.
-- A `linked_list_t *` and a `ll_node_t *` are addresses. Walks that end at a NULL run on a number of rounds.
pub mod Seg
pub mod Node
pub mod Add
pub mod Empty
pub mod Free
pub mod Nth
pub mod Roomy
pub mod Remove
pub mod Insert
use neonrt.Base.{ℕ, zero, suc, ◌^◌, ◌-◌, Bool, ◌&&◌, not, ltb, ◌==◌, if◌then◌else◌}
use neonrt.Word.{add_size, sub_size, size_max}
use neonrt.Memory.{Ptr, null, LinkedList, node, dnode, list, out_of_fuel, Cmd, pure}
use neonrt.Memory.{◌>>=◌, ◌>>◌, Allocator, allocate, init, free, store, load_node, load_list}

-- `enum LL_ADD_OP`, and any other value of the C enum.
pub data LlAddOp : Type 0 where
  prepend append insert other : LlAddOp

-- `ll_check_init`
abbrev pub ll_check_init : LinkedList → Bool
ll_check_init l = ltb 0 l.len && not (l.first == null) && not (l.last == null)

unfoldable pub new_ll_node : Allocator → Ptr → Cmd Ptr
new_ll_node a val = do
  new_node ← allocate a 16
  if new_node == null
      then pure null
      else init new_node (node (record { next = null; payload = val })) >> pure new_node

-- The block is as large as a singly linked node.
unfoldable pub new_dll_node : Allocator → Ptr → Cmd Ptr
new_dll_node a val = do
  new_node ← allocate a 16
  if new_node == null
      then pure null
      else init new_node (dnode (record { next = null; prev = null; dt_ptr = val }))
        >> pure new_node

-- The loop of `ll_gnat_impl` with `at - current` rounds left.
pub gnat_loop : ℕ → Ptr → Cmd Ptr
gnat_loop zero curr_n = pure curr_n
gnat_loop (suc left) curr_n = do
  n ← load_node curr_n
  if n.next == null then pure null else gnat_loop left n.next

unfoldable pub ll_gnat_impl : Ptr → ℕ → Cmd Ptr
unfolding gnat_loop
ll_gnat_impl first at = if first == null then pure null else gnat_loop at first

unfoldable pub ll_new : Allocator → Ptr → Cmd Ptr
unfolding new_ll_node
ll_new a fval =
    if fval == null
    then (do
      new_ll ← allocate a 24
      if new_ll == null
          then free null >> pure null
          else init new_ll (list (record { first = null; last = null; len = 0 })) >> pure new_ll)
    else (do
      first_node ← new_ll_node a fval
      if first_node == null then pure null else do
        new_ll ← allocate a 24
        if new_ll == null
            then free first_node >> pure null
            else init new_ll (list (record { first = first_node; last = first_node; len = 1 }))
              >> pure new_ll)

-- The `switch` of `ll_add_node`.
add_by : LlAddOp → Ptr → Ptr → ℕ → Cmd ℕ
unfolding ll_gnat_impl
add_by prepend self new_node pos = do
  l ← load_list self
  n ← load_node new_node
  store new_node (node (record n { next = l.first }))
  store self (list (record l { first = new_node; len = add_size l.len 1 }))
  pure (add_size l.len 1)
add_by append self new_node pos = do
  l ← load_list self
  n ← load_node l.last
  store l.last (node (record n { next = new_node }))
  store self (list (record l { last = new_node; len = add_size l.len 1 }))
  pure (add_size l.len 1)
add_by insert self new_node pos = do
  l ← load_list self
  if ltb l.len pos then free new_node >> pure (2 ^ 64 - 2) else do
    prev_n ← ll_gnat_impl l.first (sub_size pos 1)
    if prev_n == null then free new_node >> pure (2 ^ 64 - 3) else do
      p ← load_node prev_n
      n ← load_node new_node
      store new_node (node (record n { next = p.next }))
      p' ← load_node prev_n
      store prev_n (node (record p' { next = new_node }))
      store self (list (record l { len = add_size l.len 1 }))
      pure (add_size l.len 1)
add_by other self new_node pos = free new_node >> pure size_max

-- The initialisation of an empty list does not stop `ll_add_node`.
unfoldable pub ll_add_node : Allocator → Ptr → Ptr → LlAddOp → ℕ → Cmd ℕ
unfolding new_ll_node add_by
ll_add_node a self val op pos = do
  new_node ← new_ll_node a val
  if new_node == null then pure size_max else do
    l ← load_list self
    (if ll_check_init l
        then pure tt
        else store self (list (record { first = new_node; last = new_node; len = 1 })))
    add_by op self new_node pos

-- The shorthands of linked_list.h.
abbrev pub ll_append_node : Allocator → Ptr → Ptr → Cmd ℕ
ll_append_node a self val = ll_add_node a self val append 0

abbrev pub ll_prepend_node : Allocator → Ptr → Ptr → Cmd ℕ
ll_prepend_node a self val = ll_add_node a self val prepend 0

-- The loop of `ll_remove_node` with `at - 1 - idx` rounds left: the node before and the node reached.
pub remove_walk : ℕ → Ptr → Ptr → Cmd (Ptr × Ptr)
remove_walk zero prev ll_node = pure (prev, ll_node)
remove_walk (suc left) prev ll_node =
    if ll_node == null
    then pure (prev, ll_node)
    else do n ← load_node ll_node; remove_walk left ll_node n.next

unfoldable pub ll_remove_node : Ptr → ℕ → Cmd (Unit {0})
unfolding remove_walk
ll_remove_node self at = do
  l ← load_list self
  if ltb l.len at then pure tt else do
    (prev, ll_node) ← remove_walk (sub_size at 1) null l.first
    if not (prev == null) && not (ll_node == null)
        then (do
          n ← load_node ll_node
          p ← load_node prev
          store prev (node (record p { next = n.next }))
          store self (list (record l { len = sub_size l.len 1 }))
          free ll_node)
        else pure tt

unfoldable pub ll_gnat : Ptr → ℕ → Cmd Ptr
unfolding ll_gnat_impl
ll_gnat self at = do
  l ← load_list self
  if not (l.first == null) && ltb at l.len
      then ll_gnat_impl l.first at
      else if at == l.len
      then pure l.last
      else if at == 0
      then pure l.first
      else pure null

-- The loop of `ll_free`.
pub free_loop : ℕ → Ptr → Cmd (Unit {0})
free_loop zero iter_curr = λ h. out_of_fuel
free_loop (suc rounds) iter_curr =
    if iter_curr == null
    then pure tt
    else do n ← load_node iter_curr; free iter_curr; free_loop rounds n.next

-- `ll_free`, in at most `rounds` rounds.
unfoldable pub ll_free : ℕ → Ptr → Cmd (Unit {0})
unfolding free_loop
ll_free rounds self = do l ← load_list self; free_loop rounds l.first; free self
