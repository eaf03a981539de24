-- ===== src/Pages/Counts.antt =====
-- The number of free pages, and that of the pages with no reference.
use rdix.Common.{
  ℕ, zero, suc, ◌+◌, ◌-◌, ◌≤◌, ◌<◌, ◌≡◌, ◌≢◌, ◌⊎◌, inl, inr, refl, sym, ap, ◌∙◌, true, false, List,
  ok, panic, length, arith, ◌==◌, leb, ltb, ◌&&◌, if◌then◌else◌, Bool-cases, ==→eq, ==→ne, set,
  get_or, length-set, get_or-set_self, get_or-set_ne,
}
use rdix.Pages.{Pages, count_of, find_page, get_p_page, free_p_page}

-- How many of the `n` pages from `i` on are free.
unfoldable pub zeros : List ℕ → ℕ → ℕ → ℕ
zeros map i zero = 0
zeros map i (suc n) =
    let rest = zeros map (i + 1) n in if get_or map i 0 == 0 then suc rest else rest

zeros-set_out :
    (map : List ℕ) (j v i n : ℕ) → (j < i) ⊎ (i + n ≤ j) → zeros (set map j v) i n ≡ zeros map i n
unfolding zeros
zeros-set_out map j v i zero out = refl
zeros-set_out map j v i (suc n) out =
    rw
      (
        get_or-set_ne map j i v 0
            (λ e. elim out [ inl h ↦ omega (arith, e, h) | inr h ↦ omega (arith, e, h) ]),
        zeros-set_out map j v (i + 1) n
            (elim out [ inl h ↦ inl (omega arith) | inr h ↦ inr (omega arith) ]),
      )
      refl

abbrev pub free : ℕ → ℕ
free v = if v == 0 then 1 else 0

-- A new count changes the number of free pages by that page.
pub zeros-set :
    (map : List ℕ) (j v i n : ℕ)
    → i ≤ j
    → j < i + n
    → j < length map
    → zeros (set map j v) i n + free (get_or map j 0) ≡ zeros map i n + free v
unfolding zeros
zeros-set map j v i zero above below in_map = absurd (omega arith)
zeros-set map j v i (suc n) above below in_map = elim (Bool-cases (i == j)) [
  | inl b ↦
      let e : i ≡ j = ==→eq i j b in
      let here : get_or (set map j v) i 0 ≡ v =
        ap (λ k. get_or (set map j v) k 0) e ∙ get_or-set_self map j v 0 in_map in
      let there : get_or map i 0 ≡ get_or map j 0 = ap (λ k. get_or map k 0) e in
      let rest = zeros-set_out map j v (i + 1) n (inl (omega arith)) in
      rw (here, there, rest) (ground arith)
  | inr b ↦
      let ne = ==→ne i j b in
      let rest = zeros-set map j v (i + 1) n (omega (arith, ne)) (omega arith) in_map in
      rw (get_or-set_ne map j i v 0 (λ e. ne (sym e))) (ground (arith, rest))
]

pub zeros-le : (map : List ℕ) (i n : ℕ) → zeros map i n ≤ n
unfolding zeros
zeros-le map i zero = omega arith
zeros-le map i (suc n) = elim (Bool-cases (get_or map i 0 == 0)) [
  | inl b ↦ rw b (omega (arith, zeros-le map (i + 1) n))
  | inr b ↦ rw b (omega (arith, zeros-le map (i + 1) n))
]

-- How many pages have no reference.
abbrev pub free_count : Pages → ℕ
free_count m = zeros m.p_bit_map m.start (m.total_pages - m.start)

-- The number of free pages exceeds what the pages without a reference are by `extra`, 0 where the
-- number is right, and page 0 is not among those that are given out.
pub record Counted (extra : ℕ) (m : Pages) : Type 0 where
  pub low : 0 < m.start
  pub order : m.start ≤ m.total_pages
  pub storage : m.total_pages ≤ length m.p_bit_map
  pub right : m.free_pages ≡ free_count m + extra

abbrev pub put_count : Pages → ℕ → ℕ → List ℕ
put_count m i v = set m.p_bit_map i v

-- page `i` taken out of the free pages
abbrev pub taken : Pages → ℕ → Pages
taken m i = record m { free_pages = m.free_pages - 1; p_bit_map = put_count m i 1 }

-- What `get_p_page` looks for: the first page without a reference.
pub record FirstFree (m : Pages) (i : ℕ) : Type 0 where
  pub above : m.start ≤ i
  pub below : i < m.total_pages
  pub unused : count_of m i ≡ 0
  pub first : (k : ℕ) → m.start ≤ k → k < i → count_of m k ≢ 0

find_page-ok :
    (n i : ℕ) (m : Pages)
    → 0 < m.free_pages
    → 0 < zeros m.p_bit_map i n
    → (j : ℕ) × (find_page n i m ≡ ok (j, taken m j))
      × (i ≤ j)
      × (j < i + n)
      × (count_of m j ≡ 0)
      × ((k : ℕ) → i ≤ k → k < j → count_of m k ≢ 0)
unfolding find_page zeros
find_page-ok zero i m free some_zero = absurd (omega arith)
find_page-ok (suc n) i m free some_zero =
    let e1 : (m.free_pages == 0) ≡ false = ground (arith, free) in
    elim (Bool-cases (count_of m i == 0)) [
      | inl b ↦ (
        i,
        rw (e1, b) refl,
        omega arith,
        omega arith,
        ==→eq (count_of m i) 0 b,
        λ k above below. absurd (omega arith),
      )
      | inr b ↦
          let more : 0 < zeros m.p_bit_map (i + 1) n = ground (arith, some_zero, b) in
          let (j, run, above, below, unused, first) = find_page-ok n (i + 1) m free more in
          let used : count_of m i ≢ 0 = ==→ne (count_of m i) 0 b in
          (
            j,
            rw (e1, b) run,
            omega arith,
            omega arith,
            unused,
            λ k above' below' e. elim (Bool-cases (i == k)) [
              | inl b' ↦ used (ap (count_of m) (==→eq i k b') ∙ e)
              | inr b' ↦ first k (omega (arith, ==→ne i k b')) below' e
            ],
          )
    ]

find_page-panic : (n i : ℕ) (m : Pages) → m.free_pages ≡ 0 → find_page n i m ≡ panic
unfolding find_page
find_page-panic zero i m none_free = refl
find_page-panic (suc n) i m none_free = rw none_free refl

-- page `i` with one reference less
abbrev pub released : Pages → ℕ → Pages
released m i =
    let left = count_of m i - 1 in
    record m {
      free_pages = if left == 0 then m.free_pages + 1 else m.free_pages;
      p_bit_map = put_count m i left;
    }

module _ (extra : ℕ) (m : Pages) (c : Counted extra m) where
  -- A new count of page `i` in the free number.
  zeros-put :
      (i v : ℕ)
      → m.start ≤ i
      → i < m.total_pages
      → zeros (put_count m i v) m.start (m.total_pages - m.start) + extra + free (count_of m i)
        ≡ m.free_pages + free v
  zeros-put i v above below =
      let change =
        zeros-set m.p_bit_map i v m.start (m.total_pages - m.start) above (omega (arith, c.order))
          (omega (arith, c.storage)) in
      omega (arith, change, c.right)

  -- With a free page left get_p_page takes the first one.
  pub get_p_page-FirstFree :
      0 < free_count m
      → (i : ℕ) × (get_p_page m ≡ ok (i, taken m i)) × FirstFree m i × Counted extra (taken m i)
  unfolding get_p_page
  get_p_page-FirstFree some_free =
      let (i, run, above, below, unused, first) =
        find_page-ok (m.total_pages - m.start) m.start m (omega (arith, c.right, some_free))
          some_free in
      let inside : i < m.total_pages = omega (arith, c.order, below) in
      let change = zeros-put i 1 above inside in
      (
        i,
        run,
        record { above = above; below = inside; unused = unused; first = first },
        record {
          low = c.low;
          order = c.order;
          storage = rw (length-set m.p_bit_map i 1) c.storage;
          right = omega (arith, change, ap free unused);
        },
      )

  -- Without one it stops the kernel.
  pub get_p_page-panic : m.free_pages ≡ 0 → get_p_page m ≡ panic
  unfolding get_p_page
  get_p_page-panic none_free = find_page-panic (m.total_pages - m.start) m.start m none_free

  pub released-Counted :
      (i : ℕ) → m.start ≤ i → i < m.total_pages → 0 < count_of m i → Counted extra (released m i)
  released-Counted i above below used =
      let change = zeros-put i (count_of m i - 1) above below in
      record {
        low = c.low;
        order = c.order;
        storage = rw (length-set m.p_bit_map i (count_of m i - 1)) c.storage;
        right = ground (arith, change, used);
      }

  -- A page in use is released, and the surplus stays, if it was used once or the number is positive,
  -- and the number stays below that of all pages.
  pub free_p_page-Counted :
      (i : ℕ)
      → m.start ≤ i
      → i < m.total_pages
      → 0 < count_of m i
      → (count_of m i ≡ 1) ⊎ (0 < m.free_pages)
      → (released m i).free_pages < m.total_pages
      → (free_p_page i m ≡ ok (released m i)) × Counted extra (released m i)
  unfolding free_p_page
  free_p_page-Counted i above below used some bound =
      let c' = released-Counted i above below used in
      let positive : 0 < (released m i).free_pages = elim some [
        | inl one ↦ rw one (omega arith)
        | inr h ↦ ground (arith, h)
      ] in
      let e1 : (leb m.start i && ltb i m.total_pages) ≡ true = ground arith in
      let e2 : leb 1 (count_of m i) ≡ true = ground arith in
      let e3 : (ltb 0 (released m i).free_pages && ltb (released m i).free_pages m.total_pages)
          ≡ true =
        ground (arith, positive, bound) in
      (rw (e1, e2, e3) refl, c')

  -- With no page free, a page that stays in use cannot be released: the kernel stops.
  pub free_p_page-panic : (i : ℕ) → 1 < count_of m i → m.free_pages ≡ 0 → free_p_page i m ≡ panic
  unfolding free_p_page
  free_p_page-panic i shared none_free =
      let e2 : leb 1 (count_of m i) ≡ true = ground arith in
      let e3 : ((count_of m i - 1) == 0) ≡ false = ground arith in
      elim (Bool-cases (leb m.start i && ltb i m.total_pages)) [
        | inl b ↦ rw (b, e2, e3, none_free) refl
        | inr b ↦ rw b refl
      ]
