-- ===== src/LinkedList/Splice.antt =====
-- A ring stays a ring when a node is put in or taken out at any place of it, and rings of other
-- nodes do not notice.
use rdix.Common.{◌+◌, ◌^◌, ◌<◌, ◌≡◌, ◌≢◌, false, List, [], ◌∷◌, ◌++◌, arith, length, length-append}
use mathlib.Core.List.{append-nil}
use rdix.LinkedList.{Ptr, null, Heap, end}
use rdix.LinkedList.Links.{
  has, Distinct, last, first, Links, has-append, has-last, Links-split, Links-append,
  Distinct-append, Distinct-insert, Distinct-remove,
}
use rdix.LinkedList.Ring.{
  IsRing, put_between, take_out, front-put_between, back-put_between, front-take_out, back-take_out,
}

-- A node that belongs to no place of the ring.
pub record IsFree (list : Ptr) (xs : List Ptr) (n : Ptr) : Type 0 where
  pub out : has n (end list ∷ xs) ≡ false
  pub ne_null : n ≢ null

module _ (h : Heap) (list n : Ptr) where
  abbrev e : Ptr
  e = end list

  put-Links :
      (ys zs : List Ptr)
      → Links h list e (ys ++ zs) e
      → Distinct (e ∷ (ys ++ zs))
      → has n (e ∷ (ys ++ zs)) ≡ false
      → Links (put_between h list (last e ys) n (first zs e)) list e (ys ++ (n ∷ zs)) e
  put-Links ys [] l d out =
      let l' : Links h list e ys e = rw append-nil at l in
      let d' : Distinct (e ∷ ys) = rw append-nil at d in
      let out' : has n (e ∷ ys) ≡ false = rw append-nil at out in
      Links-append (put_between h list (last e ys) n e) list e ys n [] e
        (front-put_between h list n e ys e l' d' out' d'.0 (ground arith))
        (unfold put_between in (ground arith))
        (unfold put_between in (ground (arith, has-last e ys)))
  put-Links ys (z ∷ zs) l d out =
      let (l1, c, l2) = Links-split h list e ys z zs e l in
      let (d1, d2, apart) = Distinct-append (e ∷ ys) (z ∷ zs) d in
      let out' = has-append n ys (z ∷ zs) in
      Links-append (put_between h list (last e ys) n z) list e ys n (z ∷ zs) e
        (front-put_between h list n e ys z l1 d1 (ground arith) (ground (arith, apart z))
          (ground arith))
        (unfold put_between in (ground arith))
        (
          unfold put_between in (ground (arith, has-last e ys)),
          unfold put_between in (ground arith),
          unfold put_between in (ground arith),
          back-put_between h list n e ys z zs l2 d2 (apart e (ground arith)) (ground arith)
              (apart _ (has-last e ys)),
        )

  take-Links :
      (ys zs : List Ptr)
      → Links h list e (ys ++ (n ∷ zs)) e
      → Distinct (e ∷ (ys ++ (n ∷ zs)))
      → Links (take_out h list (last e ys) n (first zs e)) list e (ys ++ zs) e
  take-Links ys [] l d =
      let (l1, c, l2) = Links-split h list e ys n [] e l in
      let (d1, d2, apart) = Distinct-append (e ∷ ys) (n ∷ []) d in
      rw append-nil (
        front-take_out h list n e ys e l1 d1 (ground (arith, apart n)) d1.0
          (ground (arith, apart e)))
  take-Links ys (z ∷ zs) l d =
      let (l1, c, l2) = Links-split h list e ys n (z ∷ zs) e l in
      let (d1, d2, apart) = Distinct-append (e ∷ ys) (n ∷ z ∷ zs) d in
      Links-append (take_out h list (last e ys) n z) list e ys z zs e
        (front-take_out h list n e ys z l1 d1 (ground (arith, apart n)) (ground (arith, apart z))
          (ground arith))
        (unfold take_out in (ground arith))
        (back-take_out h list n e ys z zs l2.3 d2.1 (ground (arith, apart e))
          (ground (arith, apart e)) (ground (arith, apart (last e ys), has-last e ys)))

length-cons-mid {ℓ} :
    {A : Type ℓ} (xs : List A) (x : A) (ys : List A)
    → length (xs ++ (x ∷ ys)) ≡ length (xs ++ ys) + 1
length-cons-mid xs x ys = omega (arith, length-append xs (x ∷ ys), length-append xs ys)

-- Putting a free node between two neighbours makes the ring with that node there.
pub put_between-IsRing :
    (h : Heap) (list n : Ptr) (ys zs : List Ptr)
    → IsRing h list (ys ++ zs)
    → IsFree list (ys ++ zs) n
    → length (ys ++ zs) + 1 < 2 ^ 32
    → IsRing (put_between h list (last (end list) ys) n (first zs (end list))) list (ys ++ (n ∷ zs))
put_between-IsRing h list n ys zs r f small = record {
  links = put-Links h list n ys zs r.links r.distinct f.out;
  distinct = Distinct-insert (end list ∷ ys) n zs r.distinct f.out;
  no_null =
      ground (arith, r.no_null, f.ne_null, has-append null ys zs, has-append null ys (n ∷ zs));
  list_ne = r.list_ne;
  sentinel = unfold put_between in (ground (arith, f.out, r.sentinel));
  count = unfold put_between in (ground (arith, length-cons-mid ys n zs, r.count));
}

-- Taking a node out leaves the ring of the others.
pub take_out-IsRing :
    (h : Heap) (list n : Ptr) (ys zs : List Ptr)
    → IsRing h list (ys ++ (n ∷ zs))
    → length (ys ++ (n ∷ zs)) < 2 ^ 32
    → IsRing (take_out h list (last (end list) ys) n (first zs (end list))) list (ys ++ zs)
take_out-IsRing h list n ys zs r small =
    let (d, out) = Distinct-remove (end list ∷ ys) n zs r.distinct in
    record {
      links = take-Links h list n ys zs r.links r.distinct;
      distinct = d;
      no_null = ground (arith, r.no_null, has-append null ys zs, has-append null ys (n ∷ zs));
      list_ne = r.list_ne;
      sentinel = unfold take_out in (ground (arith, out, r.sentinel));
      count = unfold take_out in (ground (arith, length-cons-mid ys n zs, r.count));
    }
