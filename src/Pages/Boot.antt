-- ===== src/Pages/Boot.antt =====
-- The counts that the kernel starts with.
use rdix.Common.{
  ℕ, zero, suc, ◌+◌, ◌-◌, ◌*◌, ◌/◌, ◌≤◌, ◌≡◌, ◌≢◌, inl, inr, refl, ap, ◌∙◌, List, [], ◌∷◌, ◌++◌,
  arith, ◌==◌, ok, ◌<◌, ◌%◌, ◌^◌, Bool-cases, ==→eq, ==→ne, set, get_or, length, replicate,
  length-set, length-append, length-replicate, get_or-set_self, false,
}
use rdix.Pages.{Pages, mark_pages, memory_init, page_mode_init, pages_of}
use rdix.Pages.Counts.{Counted, zeros, free_count}

pub get_or-ones : (a b i : ℕ) → a ≤ i → get_or {A = ℕ} (replicate a 1 ++ replicate b 0) i 0 ≡ 0
get_or-ones zero zero i h = refl
get_or-ones zero (suc b) zero h = refl
get_or-ones zero (suc b) (suc i) h = get_or-ones zero b i (omega arith)
get_or-ones (suc a) b zero h = absurd (omega arith)
get_or-ones (suc a) b (suc i) h = get_or-ones a b i (omega arith)

zeros-all : (map : List ℕ) (i n : ℕ) → ((k : ℕ) → i ≤ k → get_or map k 0 ≡ 0) → zeros map i n ≡ n
unfolding zeros
zeros-all map i zero h = refl
zeros-all map i (suc n) h =
    rw (h i (omega arith), zeros-all map (i + 1) n (λ k above. h k (omega arith))) refl

pub pages_of-Counted :
    (mem_size : ℕ) → 12288 ≤ mem_size → mem_size < 2 ^ 32 → Counted 0 (pages_of mem_size)
unfolding pages_of
pages_of-Counted mem_size enough bound =
    let total = mem_size / 4096 + 256 in
    let map_pages = (total + 4095) / 4096 in
    let ones = 256 + map_pages in
    let rest = map_pages * 4096 - ones in
    let map_size : length {A = ℕ} (replicate ones 1 ++ replicate rest 0) ≡ ones + rest =
      rw
        (
          length-append {A = ℕ} (replicate ones 1) (replicate rest 0),
          length-replicate {A = ℕ} ones 1,
          length-replicate {A = ℕ} rest 0,
        )
        refl in
    let all : zeros (replicate ones 1 ++ replicate rest 0) ones (total - ones) ≡ total - ones =
      zeros-all (replicate ones 1 ++ replicate rest 0) ones (total - ones)
        (λ k h. get_or-ones ones rest k h) in
    record {
      low = omega arith;
      order = omega arith;
      storage = rw map_size (omega arith);
      right = rw all (omega arith);
    }

-- The first page that is not in use is one of the first 16 MB.
pub first_page :
    (mem_size : ℕ)
    → 12288 ≤ mem_size
    → mem_size < 2 ^ 32
    → let m = pages_of mem_size in
      (m.start < 4096)
      × (get_or m.p_bit_map m.start 0 ≡ 0)
      × (m.start < m.total_pages)
      × (m.start < length m.p_bit_map)
unfolding pages_of
first_page mem_size enough bound =
    let c = pages_of-Counted mem_size enough bound in
    let ones = 256 + (mem_size / 4096 + 256 + 4095) / 4096 in
    (
      omega arith,
      get_or-ones ones ((mem_size / 4096 + 256 + 4095) / 4096 * 4096 - ones) ones (omega arith),
      omega arith,
      omega (arith, c.storage),
    )

set_one-zero : (map : List ℕ) (i k : ℕ) → get_or (set map i 1) k 0 ≡ 0 → get_or map k 0 ≡ 0
set_one-zero [] i k h = h
set_one-zero (x ∷ xs) zero zero h = absurd (omega (arith, h))
set_one-zero (x ∷ xs) zero (suc k) h = h
set_one-zero (x ∷ xs) (suc i) zero h = h
set_one-zero (x ∷ xs) (suc i) (suc k) h = set_one-zero xs i k h

-- A page that is free behind the marks was free before.
pub get_or-mark_pages :
    (n i : ℕ) (map : List ℕ) (k : ℕ) → get_or (mark_pages n i map) k 0 ≡ 0 → get_or map k 0 ≡ 0
unfolding mark_pages
get_or-mark_pages zero i map k h = h
get_or-mark_pages (suc n) zero map k h = get_or-mark_pages n 1 map k h
get_or-mark_pages (suc n) (suc i) map k h =
    set_one-zero map (suc i) k (get_or-mark_pages n (suc i + 1) (set map (suc i) 1) k h)

-- A page that is marked is not free.
pub mark_pages-used :
    (n i : ℕ) (map : List ℕ) (k : ℕ)
    → 0 < k
    → i ≤ k
    → k < i + n
    → k < length map
    → get_or (mark_pages n i map) k 0 ≢ 0
unfolding mark_pages
mark_pages-used zero i map k positive above below stored = absurd (omega arith)
mark_pages-used (suc n) zero map k positive above below stored =
    mark_pages-used n 1 map k positive positive (omega arith) stored
mark_pages-used (suc n) (suc i) map k positive above below stored = elim (Bool-cases (suc i == k)) [
  | inl b ↦ λ e.
      let here : suc i ≡ k = ==→eq (suc i) k b in
      let set_here : get_or (set map (suc i) 1) k 0 ≡ 1 =
        ap (λ j. get_or (set map j 1) k 0) here ∙ get_or-set_self map k 1 0 stored in
      omega (arith, set_here, get_or-mark_pages n (suc i + 1) (set map (suc i) 1) k e)
  | inr b ↦
      mark_pages-used n (suc i + 1) (set map (suc i) 1) k positive
        (omega (arith, ==→ne (suc i) k b)) (omega arith) (rw (length-set map (suc i) 1) stored)
]

module _ (a b : List ℕ) (h : (k : ℕ) → get_or a k 0 ≡ 0 → get_or b k 0 ≡ 0) where
  zeros_mono : (i n : ℕ) → zeros a i n ≤ zeros b i n
  unfolding zeros
  zeros_mono i zero = omega arith
  zeros_mono i (suc n) = elim (Bool-cases (get_or a i 0 == 0)) [
    | inl e ↦ rw (h i (==→eq (get_or a i 0) 0 e), e) (omega (arith, zeros_mono (i + 1) n))
    | inr e ↦ rw e (ground (arith, zeros_mono (i + 1) n))
  ]

  pub zeros-lt :
      (j i n : ℕ)
      → get_or a j 0 ≢ 0
      → get_or b j 0 ≡ 0
      → i ≤ j
      → j < i + n
      → zeros a i n < zeros b i n
  unfolding zeros
  zeros-lt j i zero used free above below = absurd (omega arith)
  zeros-lt j i (suc n) used free above below = elim (Bool-cases (i == j)) [
    | inl e ↦
        let here : i ≡ j = ==→eq i j e in
        let a_here : (get_or a i 0 == 0) ≡ false =
          ground (arith, used, ap (λ k. get_or a k 0) here) in
        let b_here : get_or b i 0 ≡ 0 = ap (λ k. get_or b k 0) here ∙ free in
        rw (a_here, b_here) (omega (arith, zeros_mono (i + 1) n))
    | inr e ↦
        let later = zeros-lt j (i + 1) n used free (omega (arith, ==→ne i j e)) (omega arith) in
        elim (Bool-cases (get_or a i 0 == 0)) [
          | inl e' ↦ rw (h i (==→eq (get_or a i 0) 0 e'), e') (omega (arith, later))
          | inr e' ↦ rw e' (ground (arith, later))
        ]
  ]

-- With at least three pages above the first megabyte memory_init counts the free pages. Behind
-- page_mode_init the number is too high: the pages it maps for the kernel are not taken off.
pub page_mode_init-uncounted :
    (mem_size : ℕ)
    → mem_size % 4096 ≡ 0
    → 12288 ≤ mem_size
    → mem_size < 2 ^ 32
    → (m : Pages) × (memory_init 1048576 mem_size ≡ ok m)
      × Counted 0 m
      × (free_count (page_mode_init m) < (page_mode_init m).free_pages)
unfolding memory_init page_mode_init
page_mode_init-uncounted mem_size aligned enough bound =
    let m = pages_of mem_size in
    let c = pages_of-Counted mem_size enough bound in
    let (near, first_free, more, stored) = first_page mem_size enough bound in
    let less : zeros (mark_pages 4096 0 m.p_bit_map) m.start (m.total_pages - m.start)
        < free_count m =
      zeros-lt (mark_pages 4096 0 m.p_bit_map) m.p_bit_map (get_or-mark_pages 4096 0 m.p_bit_map)
        m.start m.start (m.total_pages - m.start)
        (mark_pages-used 4096 0 m.p_bit_map m.start c.low (omega arith) near stored) first_free
        (omega arith) (omega (arith, more)) in
    (m, rw aligned refl, c, omega (arith, less, c.right))
