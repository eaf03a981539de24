-- ===== src/Pages/Leases.antt =====
-- A page that is taken and given back.
use rdix.Common.{
  ℕ, zero, suc, ◌+◌, ◌-◌, ◌<◌, ◌≡◌, inl, refl, sym, ap, ◌∙◌, List, [], ◌∷◌, ok, ◌>>=◌, arith, set,
  get_or, get_or-set_self,
}
use rdix.Pages.{Pages, count_of, get_p_page, free_p_page}
use rdix.Pages.Counts.{
  Counted, free_count, taken, put_count, get_p_page-FirstFree, free_p_page-Counted,
}

set-set : (xs : List ℕ) (i a b : ℕ) → set (set xs i a) i b ≡ set xs i b
set-set [] i a b = refl
set-set (x ∷ xs) zero a b = refl
set-set (x ∷ xs) (suc i) a b = ap (λ r. x ∷ r) (set-set xs i a b)

set-get_or : (xs : List ℕ) (i d : ℕ) → set xs i (get_or xs i d) ≡ xs
set-get_or [] i d = refl
set-get_or (x ∷ xs) zero d = refl
set-get_or (x ∷ xs) (suc i) d = ap (λ r. x ∷ r) (set-get_or xs i d)

-- Where a page has no reference, and the number of free pages may be too high, as it is behind
-- page_mode_init, but below that of all pages: a page that get_p_page gives out, and that free_p_page
-- gets back, leaves everything as it was.
pub free_p_page-get_p_page :
    (extra : ℕ) (m : Pages)
    → Counted extra m
    → 0 < free_count m
    → m.free_pages < m.total_pages
    → (get_p_page m >>= λ (i, m'). free_p_page i m') ≡ ok m
free_p_page-get_p_page extra m c some_free bound =
    let (i, run, f, c') = get_p_page-FirstFree extra m c some_free in
    let positive : 0 < m.free_pages = omega (arith, c.right, some_free) in
    let one : count_of (taken m i) i ≡ 1 =
      get_or-set_self m.p_bit_map i 1 0 (omega (arith, f.below, c.storage)) in
    let (freed, _) =
      free_p_page-Counted extra (taken m i) c' i f.above f.below (rw one (omega arith)) (inl one)
        (rw one (omega (arith, positive, bound))) in
    let map_back : put_count (taken m i) i 0 ≡ m.p_bit_map =
      set-set m.p_bit_map i 1 0
      ∙ ap (set m.p_bit_map i) (sym f.unused)
      ∙ set-get_or m.p_bit_map i 0 in
    let number_back : m.free_pages - 1 + 1 ≡ m.free_pages = omega arith in
    rw run (freed ∙ (rw (one, map_back, number_back) refl))
