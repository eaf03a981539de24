-- ===== src/LinkedList/Tests.antt =====
-- A list of two nodes on a heap, and the theorems of kernel/list.c at it.
use rdix.Common.{
  ◌≡◌, refl, true, false, List, [], ◌∷◌, arith, Outcome, ok, panic, out_of_fuel, ◌>>=◌,
}
use mathlib.Core.List.{Perm}
use rdix.LinkedList.{
  Ptr, null, Heap, list_init, node_init, list_push, list_pushback, list_pop, remove_node,
  list_insert, greater,
}
use rdix.LinkedList.Links.{has}
use rdix.LinkedList.Ring.{IsRing}
use rdix.LinkedList.Splice.{IsFree}
use rdix.LinkedList.Ends.{list_init-IsRing, list_push-cons, list_pop-cons, Popped}
use rdix.LinkedList.Move.{move_lem}
use rdix.LinkedList.Insert.{IsOrdered, list_insert_sorted}

-- a memory of zeroes
abbrev zeroes : Heap
zeroes = record {
  value = λ p. 0;
  next = λ p. 0;
  previous = λ p. 0;
  owner = λ p. 0;
  container = λ p. 0;
  number_of_node = λ p. 0;
}

-- the lists at 100 and 200, and nodes 10, 20 and 30 with the values 1, 2 and 3
abbrev start : Heap
start =
    node_init 30 7 3 (node_init 20 7 2 (node_init 10 7 1 (list_init 200 (list_init 100 zeroes))))

-- the list at 100 holds the nodes 10 and 20
two_nodes : Outcome Heap
unfolding list_init node_init list_push list_pushback
two_nodes = do h ← list_push 100 20 start; list_push 100 10 h

abbrev or_blank : Outcome Heap → Heap
or_blank (ok h) = h
or_blank panic = zeroes
or_blank out_of_fuel = zeroes

abbrev heap : Heap
heap = or_blank two_nodes

heap-IsRing : IsRing heap 100 (10 ∷ 20 ∷ [])
unfolding two_nodes
heap-IsRing = record {
  links = omega arith;
  distinct = (refl, (refl, (refl, tt)));
  no_null = refl;
  list_ne = omega arith;
  sentinel = refl;
  count = refl;
}

other-IsRing : IsRing heap 200 []
unfolding two_nodes
other-IsRing = record {
  links = omega arith;
  distinct = (refl, tt);
  no_null = refl;
  list_ne = omega arith;
  sentinel = refl;
  count = refl;
}

thirty-IsFree : IsFree 100 (10 ∷ 20 ∷ []) 30
thirty-IsFree = record { out = refl; ne_null = omega arith }

alone : heap.container 30 ≡ null
unfolding two_nodes
alone = refl

heap_values : (heap.value 10 ≡ 1) × (heap.value 20 ≡ 2) × (heap.value 30 ≡ 3)
unfolding two_nodes
heap_values = (refl, refl, refl)

list_init-IsRing_example : IsRing (list_init 100 zeroes) 100 []
list_init-IsRing_example = list_init-IsRing 100 zeroes (omega arith)

list_push-cons_example :
    (g : Heap) × (list_push 100 30 heap ≡ ok g) × IsRing g 100 (30 ∷ 10 ∷ 20 ∷ [])
list_push-cons_example = list_push-cons heap-IsRing 30 thirty-IsFree alone (omega arith)

list_pop-cons_example :
    (g : Heap) × (list_pop 100 heap ≡ ok (10, g)) × Popped heap 100 10 (20 ∷ []) g
list_pop-cons_example = list_pop-cons heap-IsRing (omega arith)

apart : (p : Ptr) → has p (104 ∷ 10 ∷ 20 ∷ []) ≡ true → has p (204 ∷ []) ≡ false
apart p i = ground arith

move_lem_example :
    (g : Heap) × ((remove_node 20 heap >>= list_push 200 20) ≡ ok g)
    × IsRing g 100 (10 ∷ [])
    × IsRing g 200 (20 ∷ [])
move_lem_example =
    move_lem 20 (10 ∷ []) [] [] heap-IsRing other-IsRing (omega arith, apart) (omega arith)
      (omega arith)

list_insert_sorted_example :
    (g : Heap) × (ys : List Ptr) × (list_insert 3 100 30 greater heap ≡ ok g)
    × IsRing g 100 ys
    × Perm ys (30 ∷ 10 ∷ 20 ∷ [])
    × IsOrdered g.value ys
list_insert_sorted_example =
    list_insert_sorted 30 3 (10 ∷ 20 ∷ []) alone heap-IsRing thirty-IsFree (omega arith)
      (omega arith) (ground (arith, heap_values))
