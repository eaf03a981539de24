-- ===== src/LinkedList/Ends.antt =====
-- `list_init` and the pushes and pops at the two ends of a list, and a node that changes lists.
use rdix.Common.{
  ◌+◌, ◌^◌, ◌<◌, ◌≡◌, ◌≢◌, ◌∙◌, refl, List, [], ◌∷◌, ◌++◌, arith, ok, length, length-append,
}
use mathlib.Core.List.{append-nil}
use rdix.LinkedList.{
  Ptr, null, Heap, end, list_init, list_push, list_pushback, list_pop, list_popback,
}
use rdix.LinkedList.Links.{last, first, has-append, previous-last, last-append}
use rdix.LinkedList.Ring.{IsRing, put_between, take_out, ==-ne}
use rdix.LinkedList.Splice.{IsFree}
use rdix.LinkedList.Places.{
  isempty-length, insert_before-IsRing, insert_after-IsRing, remove_node-IsRing,
}

-- `list_init` makes the ring with no node, whatever the memory held.
pub list_init-IsRing : (list : Ptr) (h : Heap) → list ≢ null → IsRing (list_init list h) list []
unfolding list_init
list_init-IsRing list h ne = record {
  links = ground arith;
  distinct = (refl, tt);
  no_null = ground arith;
  list_ne = ne;
  sentinel = ground arith;
  count = ground arith;
}

module _ {h : Heap} {list : Ptr} {xs : List Ptr} (r : IsRing h list xs) where
  module _ (n : Ptr) (f : IsFree list xs n) (alone : h.container n ≡ null)
      (small : length xs + 1 < 2 ^ 32) where
    -- `list_push` puts a node that is in no list in front.
    pub list_push-cons : (g : Heap) × (list_push list n h ≡ ok g) × IsRing g list (n ∷ xs)
    unfolding list_push
    list_push-cons =
        let (run, ring) = insert_after-IsRing xs n r f small in
        (put_between h list (end list) n (first xs (end list)), rw (alone, run) refl, ring)

    -- `list_pushback` puts a node that is in no list behind the last.
    pub list_pushback-append :
        (g : Heap) × (list_pushback list n h ≡ ok g) × IsRing g list (xs ++ (n ∷ []))
    unfolding list_pushback
    list_pushback-append =
        let (run, ring) =
          insert_before-IsRing xs [] n (rw append-nil r) (rw append-nil f) (rw append-nil small) in
        (put_between h list (last (end list) xs) n (end list), rw (alone, run) refl, ring)

-- The result of a pop: NULL and nothing changed where the list is empty.
abbrev pub Popped : Heap → Ptr → Ptr → List Ptr → Heap → Type 0
Popped h list n xs g = IsRing g list xs × (g.container n ≡ null) × (n ≢ null)

-- `list_pop` takes the first node, which is then in no list.
pub list_pop-cons :
    {h : Heap} {list n : Ptr} {xs : List Ptr}
    → IsRing h list (n ∷ xs)
    → length (n ∷ xs) < 2 ^ 32
    → (g : Heap) × (list_pop list h ≡ ok (n, g)) × Popped h list n xs g
unfolding list_pop
list_pop-cons {h} {list} {n} {xs} r small =
    let (run, ring) = remove_node-IsRing [] xs n r small in
    (
      take_out h list (end list) n (first xs (end list)),
      rw (isempty-length r, ==-ne (length (n ∷ xs)) 0 (omega arith), r.links.0, run) refl,
      (ring, unfold take_out in (ground arith), ground (arith, r.no_null)),
    )

pub list_pop-nil : {h : Heap} {list : Ptr} → IsRing h list [] → list_pop list h ≡ ok (null, h)
unfolding list_pop
list_pop-nil r = rw (isempty-length r)

-- `list_popback` takes the last.
pub list_popback-append :
    {h : Heap} {list n : Ptr} (xs : List Ptr)
    → IsRing h list (xs ++ (n ∷ []))
    → length (xs ++ (n ∷ [])) < 2 ^ 32
    → (g : Heap) × (list_popback list h ≡ ok (n, g)) × Popped h list n xs g
unfolding list_popback
list_popback-append {h} {list} {n} xs r small =
    let (run, ring) = remove_node-IsRing xs [] n r small in
    let some_left : length (xs ++ (n ∷ [])) ≢ 0 = omega (arith, length-append xs (n ∷ [])) in
    let at : h.previous (end list) ≡ n =
      previous-last h list (end list) (xs ++ (n ∷ [])) (end list) r.links
      ∙ last-append (end list) xs n in
    (
      take_out h list (last (end list) xs) n (end list),
      rw (isempty-length r, ==-ne (length (xs ++ (n ∷ []))) 0 some_left, at, run) refl,
      (
        rw append-nil at ring,
        unfold take_out in (ground arith),
        ground (arith, r.no_null, has-append null xs (n ∷ [])),
      ),
    )

pub list_popback-nil :
    {h : Heap} {list : Ptr} → IsRing h list [] → list_popback list h ≡ ok (null, h)
unfolding list_popback
list_popback-nil r = rw (isempty-length r)
