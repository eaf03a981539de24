-- ===== src/LinkedList/Links.antt =====
-- Chains of `next` and `previous` pointers through the nodes of one list, and what a change of the
-- pointers at one place does to them.
use rdix.Common.{◌≡◌, ◌≢◌, refl, Bool, true, false, ◌||◌, List, [], ◌∷◌, ◌++◌, arith, ◌==◌}
use rdix.LinkedList.{Ptr, Heap}

-- `p` is among the addresses `xs`.
abbrev pub has : Ptr → List Ptr → Bool
has p [] = false
has p (x ∷ xs) = (p == x) || has p xs

abbrev pub Distinct : List Ptr → Type 0
Distinct [] = Unit {0}
Distinct (x ∷ xs) = (has x xs ≡ false) × Distinct xs

-- the last of `a` and `xs`
abbrev pub last : Ptr → List Ptr → Ptr
last a [] = a
last a (x ∷ xs) = last x xs

-- the first of `xs` and `b`
abbrev pub first : List Ptr → Ptr → Ptr
first [] b = b
first (x ∷ xs) b = x

-- From `a` the pointers lead through `xs`, nodes of `list`, to `b`, and back.
abbrev pub Links : Heap → Ptr → Ptr → List Ptr → Ptr → Type 0
Links h list a [] b = (h.next a ≡ b) × (h.previous b ≡ a)
Links h list a (x ∷ xs) b =
    (h.next a ≡ x) × (h.previous x ≡ a) × (h.container x ≡ list) × Links h list x xs b

pub has-append : (p : Ptr) (xs ys : List Ptr) → has p (xs ++ ys) ≡ (has p xs || has p ys)
has-append p [] ys = refl
has-append p (x ∷ xs) ys = ground (arith, has-append p xs ys)

pub has-last : (a : Ptr) (xs : List Ptr) → has (last a xs) (a ∷ xs) ≡ true
has-last a [] = ground arith
has-last a (x ∷ xs) = ground (arith, has-last x xs)

pub last-append : (a : Ptr) (xs : List Ptr) (n : Ptr) → last a (xs ++ (n ∷ [])) ≡ n
last-append a [] n = refl
last-append a (x ∷ xs) n = last-append x xs n

module _ (h : Heap) (list : Ptr) where
  pub previous-last :
      (a : Ptr) (xs : List Ptr) (b : Ptr) → Links h list a xs b → h.previous b ≡ last a xs
  previous-last a [] b l = l.1
  previous-last a (x ∷ xs) b l = previous-last x xs b l.3

  pub next-first : (a : Ptr) (xs : List Ptr) (b : Ptr) → Links h list a xs b → h.next a ≡ first xs b
  next-first a [] b l = l.0
  next-first a (x ∷ xs) b l = l.0

  pub next-last : (a : Ptr) (xs : List Ptr) (b : Ptr) → Links h list a xs b → h.next (last a xs) ≡ b
  next-last a [] b l = l.0
  next-last a (x ∷ xs) b l = next-last x xs b l.3

  -- A chain splits at each of its nodes, and two chains that meet at a node of the list make one.
  pub Links-split :
      (a : Ptr) (xs : List Ptr) (x : Ptr) (ys : List Ptr) (b : Ptr)
      → Links h list a (xs ++ (x ∷ ys)) b
      → Links h list a xs x × (h.container x ≡ list) × Links h list x ys b
  Links-split a [] x ys b l = ((l.0, l.1), l.2, l.3)
  Links-split a (y ∷ xs) x ys b l =
      let (p, c, q) = Links-split y xs x ys b l.3 in ((l.0, l.1, l.2, p), c, q)

  pub Links-append :
      (a : Ptr) (xs : List Ptr) (x : Ptr) (ys : List Ptr) (b : Ptr)
      → Links h list a xs x
      → h.container x ≡ list
      → Links h list x ys b
      → Links h list a (xs ++ (x ∷ ys)) b
  Links-append a [] x ys b p c q = (p.0, p.1, c, q)
  Links-append a (y ∷ xs) x ys b p c q = (p.0, p.1, p.2, Links-append y xs x ys b p.3 c q)

module _ (h g : Heap) (list : Ptr) where
  -- A chain survives every change that spares its pointers.
  pub Links-frame :
      (a : Ptr) (xs : List Ptr) (b : Ptr)
      → ((p : Ptr) → has p (a ∷ xs) ≡ true → g.next p ≡ h.next p)
      → ((p : Ptr) → has p (xs ++ (b ∷ [])) ≡ true → g.previous p ≡ h.previous p)
      → ((p : Ptr) → has p xs ≡ true → g.container p ≡ h.container p)
      → Links h list a xs b
      → Links g list a xs b
  Links-frame a [] b n p c l = ground (arith, n a, p b)
  Links-frame a (x ∷ xs) b n p c l = (
    ground (arith, n a),
    ground (arith, p x),
    ground (arith, c x),
    Links-frame x xs b (λ q i. n q (ground arith)) (λ q i. p q (ground arith))
        (λ q i. c q (ground arith)) l.3,
  )

  -- The end of a chain can be turned to another node `c`.
  pub Links-retarget :
      (a : Ptr) (xs : List Ptr) (b c : Ptr)
      → Distinct (a ∷ xs)
      → g.next (last a xs) ≡ c
      → g.previous c ≡ last a xs
      → ((p : Ptr) → has p (a ∷ xs) ≡ true → p ≢ last a xs → g.next p ≡ h.next p)
      → ((p : Ptr) → has p xs ≡ true → g.previous p ≡ h.previous p)
      → ((p : Ptr) → has p xs ≡ true → g.container p ≡ h.container p)
      → Links h list a xs b
      → Links g list a xs c
  Links-retarget a [] b c d e f n p k l = (e, f)
  Links-retarget a (x ∷ xs) b c d e f n p k l = (
    ground (arith, n a, has-last x xs),
    ground (arith, p x),
    ground (arith, k x),
    Links-retarget x xs b c d.1 e f (λ q i. n q (ground arith)) (λ q i. p q (ground arith))
        (λ q i. k q (ground arith)) l.3,
  )

pub Distinct-append :
    (xs ys : List Ptr)
    → Distinct (xs ++ ys)
    → Distinct xs × Distinct ys × ((p : Ptr) → has p xs ≡ true → has p ys ≡ false)
Distinct-append [] ys d = (tt, d, λ p i. cc)
Distinct-append (x ∷ xs) ys d =
    let (dx, dy, apart) = Distinct-append xs ys d.1 in
    (
      (ground (arith, has-append x xs ys, d.0), dx),
      dy,
      λ p i. ground (arith, apart p, has-append x xs ys, d.0),
    )

pub Distinct-insert :
    (xs : List Ptr) (n : Ptr) (ys : List Ptr)
    → Distinct (xs ++ ys)
    → has n (xs ++ ys) ≡ false
    → Distinct (xs ++ (n ∷ ys))
Distinct-insert [] n ys d out = (out, d)
Distinct-insert (x ∷ xs) n ys d out = (
  ground (arith, has-append x xs (n ∷ ys), has-append x xs ys, d.0),
  Distinct-insert xs n ys d.1 (ground arith),
)

pub Distinct-remove :
    (xs : List Ptr) (n : Ptr) (ys : List Ptr)
    → Distinct (xs ++ (n ∷ ys))
    → Distinct (xs ++ ys) × (has n (xs ++ ys) ≡ false)
Distinct-remove [] n ys d = (d.1, d.0)
Distinct-remove (x ∷ xs) n ys d =
    let (d', out) = Distinct-remove xs n ys d.1 in
    (
      (ground (arith, has-append x xs (n ∷ ys), has-append x xs ys, d.0), d'),
      ground (arith, has-append x xs (n ∷ ys), d.0),
    )
