-- ===== src/LinkedList/Search.antt =====
-- `search_node` looks at the first node only: its loop does not move on.
use rdix.Common.{ℕ, zero, suc, ◌≡◌, ◌≢◌, refl, false, List, [], ◌∷◌, arith, ok, out_of_fuel, ◌==◌}
use rdix.LinkedList.{Ptr, null, Heap, end, search_loop, search_node}
use rdix.LinkedList.Ring.{IsRing, ==-ne, ==-self}

module _ {h : Heap} {list : Ptr} (value : ℕ) where
  -- An empty list has no node with the value.
  pub search_node-nil : (f : ℕ) → IsRing h list [] → search_node (suc f) list value h ≡ ok null
  unfolding search_node
  search_node-nil f r = rw (r.links.0, ==-self (end list))

  module _ {x : Ptr} {xs : List Ptr} (r : IsRing h list (x ∷ xs)) where
    inner : (x == end list) ≡ false
    inner = ground (arith, r.distinct.0)

    not_null : (x == null) ≡ false
    not_null = ground (arith, r.no_null)

    -- The first node is found.
    pub search_node-first : (f : ℕ) → h.value x ≡ value → search_node (suc f) list value h ≡ ok x
    unfolding search_node
    search_node-first f e = rw (r.links.0, inner, not_null, e, ==-self value)

    search_loop-stuck : h.value x ≢ value → (f : ℕ) → search_loop f list x value h ≡ out_of_fuel
    unfolding search_loop
    search_loop-stuck ne zero = refl
    search_loop-stuck ne (suc f) =
        rw (inner, not_null, ==-ne (h.value x) value ne) (search_loop-stuck ne f)

    -- Where the first node of a list has another value, `search_node` never returns, whether or not
    -- a later node has the value: no number of rounds is enough.
    pub search_node-stuck :
        (fuel : ℕ) → h.value x ≢ value → search_node fuel list value h ≡ out_of_fuel
    unfolding search_node
    search_node-stuck fuel ne = rw r.links.0 (search_loop-stuck ne fuel)
