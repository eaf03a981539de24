-- ===== src/Pages/Booted.antt =====
-- What the kernel's pages are like when page_mode_init is through: the number of free pages is too
-- high, and there are pages to give out.
use rdix.Common.{
  ℕ, zero, suc, ◌+◌, ◌-◌, ◌*◌, ◌/◌, ◌≤◌, ◌<◌, ◌^◌, ◌≡◌, ◌≢◌, inl, inr, refl, ap, ◌∙◌, List, arith,
  ◌==◌, Bool-cases, ==→ne, set, get_or, length, length-set, get_or-set_ne,
}
use rdix.Pages.{Pages, mark_pages, page_mode_init, pages_of}
use rdix.Pages.Counts.{Counted, zeros, zeros-le, free_count}
use rdix.Pages.Boot.{
  get_or-ones, pages_of-Counted, first_page, get_or-mark_pages, mark_pages-used, zeros-lt,
}

length-mark_pages : (n i : ℕ) (map : List ℕ) → length (mark_pages n i map) ≡ length map
unfolding mark_pages
length-mark_pages zero i map = refl
length-mark_pages (suc n) zero map = length-mark_pages n 1 map
length-mark_pages (suc n) (suc i) map =
    length-mark_pages n (suc i + 1) (set map (suc i) 1) ∙ length-set map (suc i) 1

-- The marks do not reach a page behind them.
get_or-mark_pages_out :
    (n i : ℕ) (map : List ℕ) (k : ℕ) → i + n ≤ k → get_or (mark_pages n i map) k 0 ≡ get_or map k 0
unfolding mark_pages
get_or-mark_pages_out zero i map k out = refl
get_or-mark_pages_out (suc n) zero map k out = get_or-mark_pages_out n 1 map k (omega arith)
get_or-mark_pages_out (suc n) (suc i) map k out =
    get_or-mark_pages_out n (suc i + 1) (set map (suc i) 1) k (omega arith)
    ∙ get_or-set_ne map (suc i) k 1 0 (λ e. omega (arith, e, out))

zeros-positive :
    (map : List ℕ) (k i n : ℕ) → get_or map k 0 ≡ 0 → i ≤ k → k < i + n → 0 < zeros map i n
unfolding zeros
zeros-positive map k i zero free above below = absurd (omega arith)
zeros-positive map k i (suc n) free above below = elim (Bool-cases (get_or map i 0 == 0)) [
  | inl b ↦ rw b (omega arith)
  | inr b ↦
      let other : i ≢ k = λ e. ==→ne (get_or map i 0) 0 b (ap (λ j. get_or map j 0) e ∙ free) in
      rw b (zeros-positive map k (i + 1) n free (omega (arith, other)) (omega arith))
]

-- What the pages are like behind page_mode_init, with 16 MB of memory at least and with what 32 bits
-- address: the number of free pages has some surplus, is below that of all pages, and the pages above
-- 16 MB have no reference.
pub record Booted (m : Pages) : Type 0 where
  pub extra : ℕ
  pub counted : Counted extra m
  pub surplus : 0 < extra
  pub some_free : 0 < free_count m
  pub bound : m.free_pages < m.total_pages

high_page :
    (mem_size : ℕ)
    → 16777216 ≤ mem_size
    → mem_size < 2 ^ 32
    → (get_or (pages_of mem_size).p_bit_map 4096 0 ≡ 0) × (4096 < (pages_of mem_size).total_pages)
unfolding pages_of
high_page mem_size enough bound =
    let ones = 256 + (mem_size / 4096 + 256 + 4095) / 4096 in
    (
      get_or-ones ones ((mem_size / 4096 + 256 + 4095) / 4096 * 4096 - ones) 4096 (omega arith),
      omega arith,
    )

pub page_mode_init-Booted :
    (mem_size : ℕ)
    → 16777216 ≤ mem_size
    → mem_size < 2 ^ 32
    → Booted (page_mode_init (pages_of mem_size))
unfolding page_mode_init
page_mode_init-Booted mem_size enough bound =
    let m = pages_of mem_size in
    let c = pages_of-Counted mem_size (omega arith) bound in
    let (near, first_free, more, stored) = first_page mem_size (omega arith) bound in
    let map = mark_pages 4096 0 m.p_bit_map in
    let n = m.total_pages - m.start in
    let less : zeros map m.start n < free_count m =
      zeros-lt map m.p_bit_map (get_or-mark_pages 4096 0 m.p_bit_map) m.start m.start n
        (mark_pages-used 4096 0 m.p_bit_map m.start c.low (omega arith) near stored) first_free
        (omega arith) (omega (arith, more)) in
    let (high, total) = high_page mem_size enough bound in
    record {
      extra = m.free_pages - zeros map m.start n;
      counted = record {
        low = c.low;
        order = c.order;
        storage = rw (length-mark_pages 4096 0 m.p_bit_map) c.storage;
        right = omega (arith, less, c.right);
      };
      surplus = omega (arith, less, c.right);
      some_free =
          zeros-positive map 4096 m.start n
            (get_or-mark_pages_out 4096 0 m.p_bit_map 4096 (omega arith) ∙ high)
            (omega (arith, near)) (omega (arith, near, total));
      bound = omega (arith, c.right, c.low, more, zeros-le m.p_bit_map m.start n);
    }
