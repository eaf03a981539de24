-- ===== src/LinkedList/Insert.antt =====
-- `list_insert` puts a node before the first one that `cmp` lets it precede, and keeps an ordered
-- list ordered.
use rdix.Common.{
  ℕ, zero, suc, ◌+◌, ◌^◌, ◌≤◌, ◌<◌, ◌≡◌, ◌≢◌, refl, inl, inr, Bool, List, [], ◌∷◌, ◌++◌, arith,
  Outcome, ok, if◌then◌else◌, Bool-cases, length,
}
use mathlib.Core.List.{append_assoc, Perm}
use mathlib.Core.List.Perm
use rdix.LinkedList.{
  Ptr, null, Heap, end, list_push, list_pushback, insert_before_anchor, insert_after_anchor,
  insert_loop, list_insert, greater,
}
use rdix.LinkedList.Links.{first, Links-split, Distinct-append, has-append, next-first}
use rdix.LinkedList.Ring.{IsRing, put_between, ==-ne, ==-self}
use rdix.LinkedList.Splice.{IsFree}
use rdix.LinkedList.Places.{isempty-length, insert_before-IsRing, insert_after-IsRing}

-- where `list_insert` puts the node `n`
unfoldable pub insert_by : (ℕ → ℕ → Bool) → (Ptr → ℕ) → Ptr → List Ptr → List Ptr
insert_by cmp value n [] = n ∷ []
insert_by cmp value n (x ∷ xs) =
    if cmp (value x) (value n) then n ∷ x ∷ xs else x ∷ insert_by cmp value n xs

-- The values along the list do not fall.
abbrev pub IsOrdered : (Ptr → ℕ) → List Ptr → Type 0
IsOrdered value [] = Unit {0}
IsOrdered value (x ∷ []) = Unit {0}
IsOrdered value (x ∷ y ∷ xs) = (value x ≤ value y) × IsOrdered value (y ∷ xs)

abbrev pub Inserted : Heap → Ptr → List Ptr → Outcome Heap → Type 0
Inserted h list xs r = (g : Heap) × (r ≡ ok g) × IsRing g list xs × (g.value ≡ h.value)

pub value-put_between : (h : Heap) (list a n b : Ptr) → (put_between h list a n b).value ≡ h.value
unfolding put_between
value-put_between h list a n b = refl

module _ (h : Heap) (list n : Ptr) (alone : h.container n ≡ null) {r : Outcome Heap} where
  pushback-run : insert_before_anchor (end list) n h ≡ r → list_pushback list n h ≡ r
  unfolding list_pushback
  pushback-run run = rw (alone, run)

  push-run : insert_after_anchor (end list) n h ≡ r → list_push list n h ≡ r
  unfolding list_push
  push-run run = rw (alone, run)

module _ {h : Heap} {list : Ptr} (n : Ptr) (cmp : ℕ → ℕ → Bool) (alone : h.container n ≡ null) where
  insert_loop-Inserted :
      (f : ℕ) (ys zs : List Ptr)
      → IsRing h list (ys ++ zs)
      → IsFree list (ys ++ zs) n
      → length (ys ++ zs) + 1 < 2 ^ 32
      → length zs < f
      → Inserted h list
          (ys ++ insert_by cmp h.value n zs)
          (insert_loop f list n cmp (first zs (end list)) h)
  unfolding insert_loop insert_by
  insert_loop-Inserted zero ys zs r f small fuel = absurd (omega arith)
  insert_loop-Inserted (suc k) ys [] r f small fuel =
      let (run, ring) = insert_before-IsRing ys [] n r f small in
      rw (==-self (end list), pushback-run h list n alone run)
        (_, refl, ring, value-put_between h list _ n _)
  insert_loop-Inserted (suc k) ys (z ∷ zs) r f small fuel =
      let (l1, c, l2) = Links-split h list (end list) ys z zs (end list) r.links in
      let (d1, d2, apart) = Distinct-append (end list ∷ ys) (z ∷ zs) r.distinct in
      let inner : z ≢ end list = ground (arith, apart (end list)) in
      let ne : z ≢ null = ground (arith, r.no_null, has-append null ys (z ∷ zs)) in
      elim (Bool-cases (cmp (h.value z) (h.value n))) [
        | inl here ↦
            let (run, ring) = insert_before-IsRing ys (z ∷ zs) n r f small in
            rw (==-ne z (end list) inner, ==-ne z null ne, here, run)
              (_, refl, ring, value-put_between h list _ n _)
        | inr on ↦
            let ih =
              insert_loop-Inserted k (ys ++ (z ∷ [])) zs (rw append_assoc r) (rw append_assoc f)
                (rw append_assoc small) (omega arith) in
            let (g, run, ring, same) = ih in
            rw (==-ne z (end list) inner, ==-ne z null ne, on, next-first h list z zs (end list) l2)
              (g, run, rw append_assoc at ring, same)
      ]

  -- `list_insert` returns, given more rounds than the list has nodes, and puts the node before the
  -- first that `cmp` lets it precede, or at the tail.
  pub list_insert-Inserted :
      (fuel : ℕ) (xs : List Ptr)
      → IsRing h list xs
      → IsFree list xs n
      → length xs + 1 < 2 ^ 32
      → length xs < fuel
      → Inserted h list (insert_by cmp h.value n xs) (list_insert fuel list n cmp h)
  unfolding list_insert insert_by
  list_insert-Inserted fuel [] r f small enough =
      let (run, ring) = insert_after-IsRing [] n r f small in
      rw (isempty-length r, push-run h list n alone run)
        (_, refl, ring, value-put_between h list _ n _)
  list_insert-Inserted fuel (x ∷ xs) r f small enough =
      rw (isempty-length r, ==-ne (length (x ∷ xs)) 0 (omega arith), r.links.0)
        (insert_loop-Inserted fuel [] (x ∷ xs) r f small enough)

-- With `greater` as the order, an ordered list stays ordered.
pub IsOrdered-insert_by :
    (value : Ptr → ℕ) (n : Ptr) (xs : List Ptr)
    → IsOrdered value xs
    → IsOrdered value (insert_by greater value n xs)
unfolding insert_by greater
IsOrdered-insert_by value n [] o = tt
IsOrdered-insert_by value n (x ∷ []) o = ground arith
IsOrdered-insert_by value n (x ∷ y ∷ xs) o =
    ground (arith, IsOrdered-insert_by value n (y ∷ xs) o.1)

-- No node is lost.
pub insert_by-perm :
    (cmp : ℕ → ℕ → Bool) (value : Ptr → ℕ) (n : Ptr) (xs : List Ptr)
    → Perm (insert_by cmp value n xs) (n ∷ xs)
unfolding insert_by
insert_by-perm cmp value n [] = Perm.refl _
insert_by-perm cmp value n (x ∷ xs) = elim (Bool-cases (cmp (value x) (value n))) [
  | inl e ↦ rw e (Perm.refl _)
  | inr e ↦ rw e (Perm.trans (Perm.cons x (insert_by-perm cmp value n xs)) (Perm.swap n x xs))
]

-- With `greater` as the order, `list_insert` keeps a list ordered by its values, and loses no node:
-- it is how sleeping tasks and disk requests are queued.
pub list_insert_sorted :
    {h : Heap} {list : Ptr} (n fuel : ℕ) (xs : List Ptr)
    → h.container n ≡ null
    → IsRing h list xs
    → IsFree list xs n
    → length xs + 1 < 2 ^ 32
    → length xs < fuel
    → IsOrdered h.value xs
    → (g : Heap) × (ys : List Ptr) × (list_insert fuel list n greater h ≡ ok g)
      × IsRing g list ys
      × Perm ys (n ∷ xs)
      × IsOrdered g.value ys
list_insert_sorted {h} n fuel xs alone r f small enough o =
    let (g, run, ring, same) = list_insert-Inserted n greater alone fuel xs r f small enough in
    (
      g,
      insert_by greater h.value n xs,
      run,
      ring,
      insert_by-perm greater h.value n xs,
      rw same (IsOrdered-insert_by h.value n xs o),
    )
