-- ===== src/Tests/ListTests.antt =====
-- The list at address 10, with two nodes, and the empty list at address 13.
use neonrt.Base.{◌≡◌, refl, ◌||◌, some, none, [], ◌∷◌, arith, ◌==◌, if◌then◌else◌}
use neonrt.Memory.{ok, null, list, LinkedList, Heap}
use neonrt.LinkedList.{ll_add_node, append, prepend, insert, ll_gnat, ll_remove_node, ll_free}
use neonrt.LinkedList.Seg.{has, ll_node, nil, cons}
use neonrt.LinkedList.Add.{IsList, Gives, ll_add_node_lem}
use neonrt.LinkedList.Empty.{Loops, ll_add_node-empty}
use neonrt.LinkedList.Free.{ll_free_lem}
use neonrt.LinkedList.Nth.{ll_gnat_lem}
use neonrt.LinkedList.Insert.{ll_insert_lem}
use neonrt.LinkedList.Remove.{ll_remove_node_lem}
use neonrt.Tests.Fixtures.{memory, memory-IsList, empty_at, first_fit, pick}

ll_add_node_lem_example :
    Gives (ll_add_node first_fit 10 73 append 0 memory) 3 10 100 ((11, 71) ∷ (12, 72) ∷ []) 73
    × Gives (ll_add_node first_fit 10 73 prepend 0 memory) 3 10 12 ((100, 73) ∷ (11, 71) ∷ []) 72
unfolding memory first_fit pick
ll_add_node_lem_example = ll_add_node_lem first_fit memory 73 0 memory-IsList refl (omega arith)

ll_add_node-empty_example :
    Loops (ll_add_node first_fit 13 73 append 0 memory) 13 100 73
    × Loops (ll_add_node first_fit 13 73 prepend 0 memory) 13 100 73
unfolding memory first_fit pick
ll_add_node-empty_example = ll_add_node-empty first_fit memory 73 0 empty_at refl

ll_free_lem_example :
    ll_free 3 10 memory
    ≡ ok tt (λ a. if (a == 10) || has a ((11, 71) ∷ (12, 72) ∷ []) then none else memory a)
ll_free_lem_example = ll_free_lem memory-IsList 3 (omega arith)

ll_gnat_lem_example : ll_gnat 10 1 memory ≡ ok 12 memory
ll_gnat_lem_example = ll_gnat_lem memory-IsList 1

-- A list of three nodes at address 10.
abbrev three_nodes : LinkedList
three_nodes = record { first = 11; last = 13; len = 3 }

unfoldable three_memory : Heap
three_memory p =
    if p == 10
    then some (list three_nodes)
    else if p == 11
    then some (ll_node 12 71)
    else if p == 12
    then some (ll_node 13 72)
    else if p == 13
    then some (ll_node null 73)
    else none

three_memory-IsList : IsList three_memory 10 three_nodes ((11, 71) ∷ (12, 72) ∷ []) 73
unfolding three_memory
three_memory-IsList = record {
  header = record { ne_null = omega arith; at = refl };
  chain =
      cons (record { ne_null = omega arith; at = refl }) refl
        (cons (record { ne_null = omega arith; at = refl }) refl nil);
  back = record { ne_null = omega arith; at = refl };
  distinct = refl;
  count = refl;
}

ll_remove_node_lem_example :
    (h' : Heap) × (ll_remove_node 10 2 three_memory ≡ ok tt h')
    × (h' 12 ≡ none)
    × IsList h' 10 (record three_nodes { len = 2 }) ((11, 71) ∷ []) 73
ll_remove_node_lem_example = ll_remove_node_lem 11 71 12 72 [] [] three_memory-IsList (omega arith)

ll_insert_lem_example :
    Gives
      (ll_add_node first_fit 10 79 insert 1 three_memory)
      4
      10
      13
      ((11, 71) ∷ (100, 79) ∷ (12, 72) ∷ [])
      73
unfolding three_memory first_fit pick
ll_insert_lem_example =
    ll_insert_lem first_fit 11 71 [] ((12, 72) ∷ []) 79 three_memory-IsList refl (omega arith)
