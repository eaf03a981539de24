-- ===== src/Pages/Kernel.antt =====
-- `alloc_kpage` and `free_kpage` of kernel/memory.c: the virtual pages of the kernel. A page is given
-- by its index, the address less its last twelve bits: the kernel's table is below index 2 ^ 20, so
-- that no address wraps round.
use mathlib.Core.Path.{subst}
use rdix.Common.{
  ℕ, zero, suc, ◌+◌, ◌-◌, ◌^◌, ◌≤◌, ◌<◌, ◌≡◌, ◌∙◌, refl, sym, ap, inl, inr, true, false, Option,
  some, Outcome, ok, ◌>>=◌, ◌>>◌, assert, arith, u32, leb, ltb, ◌&&◌, Bool-cases, ok-inj,
}
use rdix.Bitmap.{Bitmap, bitmap_scan, bitmap_set}
use rdix.Bitmap.Bits.{IsValid, marked, Wrote, bitmap_set_lem}
use rdix.Bitmap.Scan.{bits, Found, Scanned, bitmap_scan_lem, Wrote-trans, Wrote-nothing}

-- NULL is `none`.
unfoldable pub alloc_kpage : ℕ → Bitmap → Outcome (Option ℕ × Bitmap)
alloc_kpage count v_bit_map = bitmap_scan v_bit_map count

-- `count` pages from `page` on
unfoldable pub free_kpage : ℕ → ℕ → Bitmap → Outcome Bitmap
free_kpage page zero v_bit_map = ok v_bit_map
free_kpage page (suc count) v_bit_map = do
  (changed, v') ← bitmap_set v_bit_map page false
  assert changed
  free_kpage (u32 (page + 1)) count v'

free_kpage-step :
    (count page : ℕ) (m m1 : Bitmap)
    → bitmap_set m page false ≡ ok (true, m1)
    → page + 1 < 2 ^ 32
    → free_kpage page (suc count) m ≡ free_kpage (page + 1) count m1
unfolding free_kpage
free_kpage-step count page m m1 e h =
    let fits : u32 (page + 1) ≡ page + 1 = omega arith in rw (e, fits) refl

-- Pages that are all taken are freed.
free_kpage-Wrote :
    (count page : ℕ) (m : Bitmap)
    → IsValid m
    → m.offset ≤ page
    → page + count ≤ m.offset + bits m
    → ((k : ℕ) → k < count → marked m (page + k) ≡ true)
    → (m' : Bitmap) × (free_kpage page count m ≡ ok m') × Wrote m page count false m'
free_kpage-Wrote zero page m v above fits taken =
    (m, unfold free_kpage in refl, Wrote-nothing page false v)
free_kpage-Wrote (suc count) page m v above fits taken =
    let (changed, m1, e, w, (to, from)) = bitmap_set_lem page false v (omega arith) in
    let same_page : page + 0 ≡ page = omega arith in
    let first : marked m page ≡ true = ap (marked m) (sym same_page) ∙ taken 0 (omega arith) in
    let it_changed : changed ≡ true = elim (Bool-cases changed) [
      | inl b ↦ b
      | inr b ↦ let bad : true ≡ false = sym first ∙ to b in cc
    ] in
    let run : bitmap_set m page false ≡ ok (true, m1) = e ∙ ap (λ b. ok (b, m1)) it_changed in
    let rest : (k : ℕ) → k < count → marked m1 (page + 1 + k) ≡ true = λ k h.
      let here : page + suc k ≡ page + 1 + k = omega arith in
      w.bits (page + 1 + k) (omega arith)
      ∙ (ground arith)
      ∙ ap (marked m) (sym here)
      ∙ taken (suc k) (omega arith) in
    let (m2, run2, w2) =
      free_kpage-Wrote count (page + 1) m1 w.valid (omega (arith, w.same_offset))
        (omega (arith, w.same_offset, w.same_length)) rest in
    (
      m2,
      free_kpage-step count page m m1 run (omega (arith, v.room)) ∙ run2,
      let last : count + 1 ≡ suc count = omega arith in
          rw last at (Wrote-trans page count false w w2),
    )

-- Pages of the kernel that alloc_kpage gives out, and that free_kpage gets back, leave each bit of
-- the table as it was.
pub free_kpage-alloc_kpage :
    (count page : ℕ) (m m1 : Bitmap)
    → IsValid m
    → 0 < count
    → count < 2 ^ 32
    → alloc_kpage count m ≡ ok (some page, m1)
    → (m2 : Bitmap) × (free_kpage page count m1 ≡ ok m2)
      × IsValid m2
      × ((j : ℕ) → m.offset ≤ j → marked m2 j ≡ marked m j)
unfolding alloc_kpage
free_kpage-alloc_kpage count page m m1 v some_pages small run =
    let f = found in
    let w = f.taken in
    let (m2, freed, w2) =
      free_kpage-Wrote count page m1 w.valid (omega (arith, f.above, w.same_offset))
        (omega (arith, f.fits, w.same_offset, w.same_length))
        (λ k h. w.bits (page + k) (omega (arith, f.above)) ∙ (ground arith)) in
    (
      m2,
      freed,
      w2.valid,
      λ j h.
          w2.bits j (omega (arith, h, w.same_offset))
          ∙ (elim (Bool-cases (leb page j && ltb j (page + count))) [
            | inl b ↦
                let at_j : page + (j - page) ≡ j = ground (arith, b) in
                let was : marked m j ≡ false =
                  ap (marked m) (sym at_j) ∙ f.free (j - page) (ground (arith, b)) in
                rw (b, was) refl
            | inr b ↦ rw b (w.bits j h ∙ (rw b refl))
          ]),
    )
  where
    found : Found m count page m1
    found =
        let (o, m', e, s) = bitmap_scan_lem v count small some_pages in
        subst (λ r. Scanned m count r.0 r.1) (ok-inj (sym e ∙ run)) s
