-- ===== src/LinkedList/Places.antt =====
-- `list_isempty`, and the insertion and removal of kernel/list.c at any place of a well formed ring.
use rdix.Common.{
  ◌+◌, ◌^◌, ◌<◌, ◌≡◌, ◌≢◌, sym, true, false, List, [], ◌∷◌, ◌++◌, arith, ok, ◌==◌, length,
}
use mathlib.Core.List.{append-nil}
use rdix.LinkedList.{
  Ptr, null, Heap, end, list_isempty, insert_before_anchor, insert_after_anchor, remove_node,
}
use rdix.LinkedList.Links.{
  has, last, first, Links, has-append, has-last, previous-last, next-first, next-last, Links-split,
  Distinct-append,
}
use rdix.LinkedList.Ring.{
  IsRing, put_between, take_out, before-put_between, after-put_between, remove-take_out, ==-ne,
  ==-self,
}
use rdix.LinkedList.Splice.{IsFree, put_between-IsRing, take_out-IsRing}

-- what stands on the two sides of a place of the ring
pub record Neighbours (h : Heap) (list a b : Ptr) : Type 0 where
  pub previous : h.previous b ≡ a
  pub next : h.next a ≡ b
  pub inside : h.container b ≡ list
  pub a_ne : a ≢ null
  pub b_ne : b ≢ null

has-ne : (p q : Ptr) (xs : List Ptr) → has p xs ≡ true → has q xs ≡ false → p ≢ q
has-ne p q xs i o e = ground arith

module _ {h : Heap} {list : Ptr} where
  pub neighbours :
      (ys zs : List Ptr)
      → IsRing h list (ys ++ zs)
      → Neighbours h list (last (end list) ys) (first zs (end list))
  neighbours ys [] r =
      let l : Links h list (end list) ys (end list) = rw append-nil at r.links in
      let no : has null (end list ∷ ys) ≡ false = rw append-nil at r.no_null in
      record {
        previous = previous-last h list (end list) ys (end list) l;
        next = next-last h list (end list) ys (end list) l;
        inside = r.sentinel;
        a_ne = has-ne _ null (end list ∷ ys) (has-last (end list) ys) no;
        b_ne = ground (arith, no);
      }
  neighbours ys (z ∷ zs) r =
      let (l1, c, l2) = Links-split h list (end list) ys z zs (end list) r.links in
      let no = has-append null ys (z ∷ zs) in
      record {
        previous = previous-last h list (end list) ys z l1;
        next = next-last h list (end list) ys z l1;
        inside = c;
        a_ne =
            has-ne _ null (end list ∷ ys) (has-last (end list) ys) (ground (arith, r.no_null, no));
        b_ne = ground (arith, r.no_null, no);
      }

  -- What `list_isempty` answers.
  pub isempty-length :
      {xs : List Ptr} → IsRing h list xs → list_isempty list h ≡ ok (length xs == 0)
  unfolding list_isempty
  isempty-length r = rw (==-ne list null r.list_ne, r.count)

  -- A free node put before the place that `first zs` marks.
  pub insert_before-IsRing :
      (ys zs : List Ptr) (n : Ptr)
      → IsRing h list (ys ++ zs)
      → IsFree list (ys ++ zs) n
      → length (ys ++ zs) + 1 < 2 ^ 32
      → (insert_before_anchor (first zs (end list)) n h
          ≡ ok (put_between h list (last (end list) ys) n (first zs (end list))))
        × IsRing
            (put_between h list (last (end list) ys) n (first zs (end list)))
            list
            (ys ++ (n ∷ zs))
  insert_before-IsRing ys zs n r f small =
      let b = neighbours ys zs r in
      (
        before-put_between h list (last (end list) ys) n (first zs (end list)) f.ne_null b.a_ne
            b.b_ne r.list_ne
            (λ same. has-ne _ n (end list ∷ (ys ++ zs)) (first-has ys zs) f.out (sym same))
            b.previous b.inside,
        put_between-IsRing h list n ys zs r f small,
      )
    where
      first-has : (ys zs : List Ptr) → has (first zs (end list)) (end list ∷ (ys ++ zs)) ≡ true
      first-has ys [] = ground arith
      first-has ys (z ∷ zs) = ground (arith, has-append z ys (z ∷ zs))

  pub insert_after-IsRing :
      (xs : List Ptr) (n : Ptr)
      → IsRing h list xs
      → IsFree list xs n
      → length xs + 1 < 2 ^ 32
      → (insert_after_anchor (end list) n h
          ≡ ok (put_between h list (end list) n (first xs (end list))))
        × IsRing (put_between h list (end list) n (first xs (end list))) list (n ∷ xs)
  insert_after-IsRing xs n r f small =
      let b = neighbours [] xs r in
      (
        after-put_between h list (end list) n (first xs (end list)) f.ne_null b.a_ne b.b_ne
            r.list_ne (ground (arith, f.out)) b.next r.sentinel,
        put_between-IsRing h list n [] xs r f small,
      )

  -- `remove_node` takes a node out of the middle of its ring.
  pub remove_node-IsRing :
      (ys zs : List Ptr) (n : Ptr)
      → IsRing h list (ys ++ (n ∷ zs))
      → length (ys ++ (n ∷ zs)) < 2 ^ 32
      → (remove_node n h ≡ ok (take_out h list (last (end list) ys) n (first zs (end list))))
        × IsRing (take_out h list (last (end list) ys) n (first zs (end list))) list (ys ++ zs)
  remove_node-IsRing ys zs n r small =
      let b = neighbours ys (n ∷ zs) r in
      let (l1, c, l2) = Links-split h list (end list) ys n zs (end list) r.links in
      let (d1, d2, apart) = Distinct-append (end list ∷ ys) (n ∷ zs) r.distinct in
      (
        remove-take_out h list (last (end list) ys) n (first zs (end list)) b.b_ne b.a_ne
            (first-ne zs r.no_null) r.list_ne (ne_first zs d2.0 (apart (end list))) b.previous
            (next-first h list n zs (end list) l2) b.inside,
        take_out-IsRing h list n ys zs r small,
      )
    where
      first-ne :
          (zs : List Ptr)
          → has null (end list ∷ (ys ++ (n ∷ zs))) ≡ false
          → first zs (end list) ≢ null
      first-ne [] out = ground (arith, out)
      first-ne (z ∷ zs) out = ground (arith, out, has-append null ys (n ∷ z ∷ zs))

      ne_first :
          (zs : List Ptr)
          → has n zs ≡ false
          → (has (end list) (end list ∷ ys) ≡ true → has (end list) (n ∷ zs) ≡ false)
          → n ≢ first zs (end list)
      ne_first [] out apart = ground (arith, ==-self (end list))
      ne_first (z ∷ zs) out apart = ground arith
