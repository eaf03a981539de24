-- ===== src/LinkedList/Move.antt =====
-- A node that changes lists: rings do not notice what happens elsewhere.
use rdix.Common.{
  ◌+◌, ◌^◌, ◌<◌, ◌≡◌, ◌≢◌, ◌∙◌, refl, true, false, List, [], ◌∷◌, ◌++◌, arith, ok, ◌>>=◌, length,
}
use rdix.LinkedList.{Ptr, null, Heap, end, remove_node, list_push}
use rdix.LinkedList.Links.{has, last, first, Links-frame, has-append, has-last, Distinct-remove}
use rdix.LinkedList.Ring.{IsRing, put_between, take_out}
use rdix.LinkedList.Splice.{IsFree}
use rdix.LinkedList.Places.{insert_after-IsRing, remove_node-IsRing}

-- A ring does not notice a change that spares its nodes and its counter.
pub IsRing-frame :
    {h g : Heap} {list : Ptr} {xs : List Ptr}
    → IsRing h list xs
    → ((p : Ptr)
        → has p (end list ∷ xs) ≡ true
        → (g.next p ≡ h.next p) × (g.previous p ≡ h.previous p) × (g.container p ≡ h.container p))
    → g.number_of_node list ≡ h.number_of_node list
    → IsRing g list xs
IsRing-frame {h} {g} {list} {xs} r same count = record {
  links =
      Links-frame h g list (end list) xs (end list) (λ p i. (same p i).0)
        (λ p i. (same p (ground (arith, has-append p xs (end list ∷ [])))).1)
        (λ p i. (same p (ground arith)).2) r.links;
  distinct = r.distinct;
  no_null = r.no_null;
  list_ne = r.list_ne;
  sentinel = ground (arith, same (end list), r.sentinel);
  count = count ∙ r.count;
}

-- Two rings share no node, sentinels included.
abbrev pub Apart : Ptr → List Ptr → Ptr → List Ptr → Type 0
Apart a xs b ys = (a ≢ b) × ((p : Ptr) → has p (end a ∷ xs) ≡ true → has p (end b ∷ ys) ≡ false)

has-first : (b : Ptr) (xs ys : List Ptr) → has (first ys b) (b ∷ (xs ++ ys)) ≡ true
has-first b xs [] = ground arith
has-first b xs (y ∷ ys) = ground (arith, has-append y xs (y ∷ ys))

module _ {h : Heap} {from to : Ptr} (n : Ptr) (xs ys zs : List Ptr)
    (r : IsRing h from (xs ++ (n ∷ ys))) (s : IsRing h to zs)
    (apart : Apart from (xs ++ (n ∷ ys)) to zs) (small : length (xs ++ (n ∷ ys)) < 2 ^ 32)
    (small' : length zs + 1 < 2 ^ 32) where
  abbrev mid : Heap
  mid = take_out h from (last (end from) xs) n (first ys (end from))

  abbrev done : Heap
  done = put_between mid to (end to) n (first zs (end to))

  -- the three nodes that `remove_node` writes are none of `to`
  not_in_to :
      (has (last (end from) xs) (end to ∷ zs) ≡ false)
      × (has n (end to ∷ zs) ≡ false)
      × (has (first ys (end from)) (end to ∷ zs) ≡ false)
  not_in_to = (
    apart.1 _ (ground (arith, has-last (end from) xs, has-append (last (end from) xs) xs (n ∷ ys))),
    apart.1 n (ground (arith, has-append n xs (n ∷ ys))),
    apart.1 _ (
        ground (
          arith,
          has-first (end from) xs ys,
          has-append (first ys (end from)) xs ys,
          has-append (first ys (end from)) xs (n ∷ ys),
        )),
  )

  to-mid : IsRing mid to zs
  to-mid =
      let (a, b, c) = not_in_to in
      IsRing-frame s (λ p i. unfold take_out in (ground arith))
        (unfold take_out in (ground (arith, apart.0)))

  from-mid : IsRing mid from (xs ++ ys)
  from-mid = (remove_node-IsRing xs ys n r small).1

  from-done : IsRing done from (xs ++ ys)
  from-done =
      let (d, out) = Distinct-remove (end from ∷ xs) n ys r.distinct in
      IsRing-frame from-mid
        (λ p i.
          let far : has p (end to ∷ zs) ≡ false =
            apart.1 p (ground (arith, has-append p xs ys, has-append p xs (n ∷ ys))) in
          unfold put_between in (ground (arith, has-first (end to) [] zs)))
        (unfold put_between in (ground (arith, apart.0)))

  -- A node that `remove_node` takes from one list and `list_push` puts on another: no assertion
  -- fails, the node is at the head of the second list, and both lists are otherwise as they were.
  pub move_lem :
      (g : Heap) × ((remove_node n h >>= list_push to n) ≡ ok g)
      × IsRing g from (xs ++ ys)
      × IsRing g to (n ∷ zs)
  unfolding list_push
  move_lem =
      let f : IsFree to zs n = record {
        out = not_in_to.1;
        ne_null = ground (arith, r.no_null, has-append null xs (n ∷ ys));
      } in
      let (run, ring) = insert_after-IsRing zs n to-mid f small' in
      let alone : mid.container n ≡ null = unfold take_out in (ground arith) in
      (done, rw ((remove_node-IsRing xs ys n r small).0, alone, run) refl, from-done, ring)
