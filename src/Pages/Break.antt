-- ===== src/Pages/Break.antt =====
-- A break that is set back.
use rdix.Common.{
  set, ℕ, suc, ◌+◌, ◌-◌, ◌^◌, ◌<◌, ◌≡◌, ◌⊎◌, ◌&&◌, inl, inr, refl, ap, ◌∙◌, Bool, true, false, ok,
  panic, ◌>>=◌, ◌>>◌, assert, arith, ltb, leb, ◌==◌, Bool-cases, lt→ltb, u32, if◌then◌else◌,
}
use rdix.Pages.{Pages, free_p_page, count_of}
use rdix.Pages.Tables.{
  Memory, Entry, didx, tidx, entry_at, with_entry, get_pte, unlink_page, unlink_loop, sys_brk,
}

-- A page that is not mapped cannot be unmapped: the kernel stops.
unlink_page-panic :
    (vaddr : ℕ) (m : Memory) → (entry_at m vaddr).present ≡ false → unlink_page vaddr m ≡ panic
unfolding unlink_page get_pte
unlink_page-panic vaddr m gone = elim (Bool-cases (m.pde (didx vaddr)).present) [
  | inl b ↦ rw (b, gone) refl
  | inr b ↦ rw b refl
]

entry_at-with_entry :
    (m : Memory) (vaddr : ℕ) (e : Entry) → entry_at (with_entry m vaddr e) vaddr ≡ e
entry_at-with_entry m vaddr e =
    let d : (didx vaddr == didx vaddr) ≡ true = ground arith in
    let t : (tidx vaddr == tidx vaddr) ≡ true = ground arith in rw (d, t) refl

asserts-cases {ℓ} :
    {A : Type ℓ} (b1 b2 b3 : Bool) (a : A)
    → let run = assert b1 >> (assert b2 >> (assert b3 >> ok a)) in
      (run ≡ panic) ⊎ ((a' : A) × (run ≡ ok a'))
asserts-cases true true true a = inr (a, refl)
asserts-cases false b2 b3 a = inl refl
asserts-cases true false b3 a = inl refl
asserts-cases true true false a = inl refl

free_p_page-cases :
    (i : ℕ) (p : Pages) → (free_p_page i p ≡ panic) ⊎ ((p' : Pages) × (free_p_page i p ≡ ok p'))
unfolding free_p_page
free_p_page-cases i p =
    let left = count_of p i - 1 in
    let free = if left == 0 then p.free_pages + 1 else p.free_pages in
    asserts-cases (leb p.start i && ltb i p.total_pages) (leb 1 (count_of p i))
      (ltb 0 free && ltb free p.total_pages)
      (record p { free_pages = free; p_bit_map = set p.p_bit_map i left })

-- the memory with the page at `vaddr` unmapped
abbrev unmapped : Memory → ℕ → Memory
unmapped m vaddr = with_entry m vaddr (record (entry_at m vaddr) { present = false })

unlink_page-run :
    (vaddr : ℕ) (m : Memory)
    → (m.pde (didx vaddr)).present ≡ true
    → (entry_at m vaddr).present ≡ true
    → unlink_page vaddr m
      ≡ ◌>>=◌ {B = Memory}
          (free_p_page (entry_at m vaddr).index m.pages)
          (λ p. ok (record (unmapped m vaddr) { pages = p }))
unfolding unlink_page get_pte
unlink_page-run vaddr m table mapped = rw (table, mapped) refl

unlink_page-no_table :
    (vaddr : ℕ) (m : Memory) → (m.pde (didx vaddr)).present ≡ false → unlink_page vaddr m ≡ panic
unfolding unlink_page get_pte
unlink_page-no_table vaddr m none = rw none refl

-- A page is unmapped once.
unlink_page-twice :
    (vaddr : ℕ) (m : Memory)
    → (unlink_page vaddr m ≡ panic)
      ⊎ ((m' : Memory) × (unlink_page vaddr m ≡ ok m') × (unlink_page vaddr m' ≡ panic))
unlink_page-twice vaddr m = elim (Bool-cases (m.pde (didx vaddr)).present) [
  | inr b ↦ inl (unlink_page-no_table vaddr m b)
  | inl b ↦ elim (Bool-cases (entry_at m vaddr).present) [
    | inr b' ↦ inl (unlink_page-panic vaddr m b')
    | inl b' ↦
        let run = unlink_page-run vaddr m b b' in
        elim (free_p_page-cases (entry_at m vaddr).index m.pages) [
          | inl r ↦ inl (run ∙ (rw r refl))
          | inr (p', r) ↦
              let m3 : Memory = record (unmapped m vaddr) { pages = p' } in
              let gone : (entry_at m3 vaddr).present ≡ false =
                ap (λ e. e.present)
                  (entry_at-with_entry m vaddr (record (entry_at m vaddr) { present = false })) in
              inr (m3, run ∙ (rw r refl), unlink_page-panic vaddr m3 gone)
        ]
  ]
]

-- A break that is set back by more than a page stops the kernel.
pub sys_brk-panic :
    (fuel brk : ℕ) (m : Memory)
    → brk + 4096 < m.brk
    → m.brk < 2 ^ 32
    → sys_brk (suc (suc fuel)) brk m ≡ panic
unfolding sys_brk unlink_loop
sys_brk-panic fuel brk m far bound =
    let e1 : ltb brk m.brk ≡ true = lt→ltb brk m.brk (omega arith) in
    let e2 : ltb (u32 (brk + 4096)) m.brk ≡ true = lt→ltb (u32 (brk + 4096)) m.brk (omega arith) in
    elim (unlink_page-twice brk m) [
      | inl first ↦ rw (e1, first) refl
      | inr (m', first, second) ↦ rw (e1, first, e2, second) refl
    ]
