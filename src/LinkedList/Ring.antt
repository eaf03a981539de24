-- ===== src/LinkedList/Ring.antt =====
-- What `List_t` stands for: the nodes of a well formed ring, in order. `insert_before_anchor`,
-- `insert_after_anchor` and `remove_node` at any place of it.
use rdix.Common.{ℕ, ◌+◌, ◌≡◌, ◌≢◌, true, false, List, [], ◌∷◌, arith, ok, ◌==◌, length, u32, sub32}
use rdix.LinkedList.{
  Ptr, null, Heap, update, end, insert_before_anchor, insert_after_anchor, remove_node,
}
use rdix.LinkedList.Links.{
  has, Distinct, last, Links, has-append, has-last, Links-frame, Links-retarget,
}

pub record IsRing (h : Heap) (list : Ptr) (xs : List Ptr) : Type 0 where
  pub links : Links h list (end list) xs (end list)
  pub distinct : Distinct (end list ∷ xs)
  pub no_null : has null (end list ∷ xs) ≡ false
  pub list_ne : list ≢ null
  pub sentinel : h.container (end list) ≡ list
  pub count : h.number_of_node list ≡ length xs

-- The heap after node `n` has been put between `a` and `b`.
unfoldable pub put_between : Heap → Ptr → Ptr → Ptr → Ptr → Heap
unfolding update
put_between h list a n b = record h {
  next = update (update h.next n b) a n;
  previous = update (update h.previous n a) b n;
  container = update h.container n list;
  number_of_node = update h.number_of_node list (u32 (h.number_of_node list + 1));
}

pub ==-ne : (a b : ℕ) → a ≢ b → (a == b) ≡ false
==-ne a b h = ground arith

pub ==-self : (a : ℕ) → (a == a) ≡ true
==-self a = ground arith

module _ (h : Heap) (list a n b : Ptr) (n_ne : n ≢ null) (a_ne : a ≢ null) (b_ne : b ≢ null)
    (list_ne : list ≢ null) where
  pub before-put_between :
      n ≢ b
      → h.previous b ≡ a
      → h.container b ≡ list
      → insert_before_anchor b n h ≡ ok (put_between h list a n b)
  unfolding insert_before_anchor put_between
  before-put_between nb p c = rw (
    ==-ne b null b_ne,
    ==-ne n null n_ne,
    ==-ne n b nb,
    ==-self n,
    p,
    ==-ne a null a_ne,
    c,
    ==-ne list null list_ne,
  )

  pub after-put_between :
      n ≢ a
      → h.next a ≡ b
      → h.container a ≡ list
      → insert_after_anchor a n h ≡ ok (put_between h list a n b)
  unfolding insert_after_anchor put_between
  after-put_between na p c = rw (
    ==-ne a null a_ne,
    ==-ne n null n_ne,
    ==-ne n a na,
    ==-self n,
    p,
    ==-ne b null b_ne,
    c,
    ==-ne list null list_ne,
  )

-- The heap after node `n` has been taken out from between `a` and `b`.
unfoldable pub take_out : Heap → Ptr → Ptr → Ptr → Ptr → Heap
unfolding update
take_out h list a n b = record h {
  next = update (update h.next a b) n n;
  previous = update (update h.previous b a) n n;
  container = update h.container n null;
  number_of_node = update h.number_of_node list (sub32 (h.number_of_node list) 1);
}

pub remove-take_out :
    (h : Heap) (list a n b : Ptr)
    → n ≢ null
    → a ≢ null
    → b ≢ null
    → list ≢ null
    → n ≢ b
    → h.previous n ≡ a
    → h.next n ≡ b
    → h.container n ≡ list
    → remove_node n h ≡ ok (take_out h list a n b)
unfolding remove_node take_out
remove-take_out h list a n b n_ne a_ne b_ne list_ne nb p q c = rw (
  ==-ne n null n_ne,
  c,
  ==-ne list null list_ne,
  q,
  ==-ne b null b_ne,
  ==-ne n b nb,
  p,
  ==-ne a null a_ne,
)

-- The chains on the two sides of the place where `n` is put.
module _ (h : Heap) (list n e : Ptr) (ys : List Ptr) where
  pub front-put_between :
      (b : Ptr)
      → Links h list e ys b
      → Distinct (e ∷ ys)
      → has n (e ∷ ys) ≡ false
      → has b ys ≡ false
      → n ≢ b
      → Links (put_between h list (last e ys) n b) list e ys n
  unfolding put_between
  front-put_between b l d out apart nb =
      Links-retarget h (put_between h list (last e ys) n b) list e ys b n d
        (ground (arith, has-last e ys)) (ground arith) (λ p i ne. ground arith)
        (λ p i. ground arith) (λ p i. ground arith) l

  pub back-put_between :
      (z : Ptr) (zs : List Ptr)
      → Links h list z zs e
      → Distinct (z ∷ zs)
      → has e (z ∷ zs) ≡ false
      → has n (e ∷ z ∷ zs) ≡ false
      → has (last e ys) (z ∷ zs) ≡ false
      → Links (put_between h list (last e ys) n z) list z zs e
  unfolding put_between
  back-put_between z zs l d apart out apart' =
      Links-frame h (put_between h list (last e ys) n z) list z zs e (λ p i. ground arith)
        (λ p i. ground (arith, has-append p zs (e ∷ []))) (λ p i. ground arith) l

  -- The same where `n` is taken out.
  pub front-take_out :
      (b : Ptr)
      → Links h list e ys n
      → Distinct (e ∷ ys)
      → has n (e ∷ ys) ≡ false
      → has b ys ≡ false
      → n ≢ b
      → Links (take_out h list (last e ys) n b) list e ys b
  unfolding take_out
  front-take_out b l d out apart nb =
      Links-retarget h (take_out h list (last e ys) n b) list e ys n b d
        (ground (arith, has-last e ys)) (ground arith) (λ p i ne. ground arith)
        (λ p i. ground arith) (λ p i. ground arith) l

  pub back-take_out :
      (z : Ptr) (zs : List Ptr)
      → Links h list z zs e
      → Distinct (z ∷ zs)
      → has e (z ∷ zs) ≡ false
      → has n (e ∷ z ∷ zs) ≡ false
      → has (last e ys) (z ∷ zs) ≡ false
      → Links (take_out h list (last e ys) n z) list z zs e
  unfolding take_out
  back-take_out z zs l d apart out apart' =
      Links-frame h (take_out h list (last e ys) n z) list z zs e (λ p i. ground arith)
        (λ p i. ground (arith, has-append p zs (e ∷ []))) (λ p i. ground arith) l
