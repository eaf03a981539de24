-- ===== src/Fs/Frees.antt =====
-- Which blocks inode_bfree and inode_truncate of fs/minix1/inode.c free, and in which order.
use rdix.Common.{
  ℕ, zero, suc, ◌+◌, ◌<◌, ◌≡◌, ◌⊎◌, ◌∙◌, inl, inr, refl, sym, ap, List, [], ◌∷◌, ◌++◌, arith,
  Outcome, ok, panic, out_of_fuel, Halts, ◌>>=◌, >>=-assoc, >>=-eq, ◌==◌, Bool-cases, if◌then◌else◌,
  set, get_or, get_or-set_ne,
}
use rdix.Blocks.{SuperBlock, bfree}
use rdix.Fs.{Fs}
use rdix.Fs.Zones.{words_of, free_block, each, inode_bfree, set_super}
use rdix.Fs.Freeing.{free_block-Halts}
use rdix.Fs.Direct.{same_super}

-- bfree of one block after the other.
unfoldable pub free_all : List ℕ → SuperBlock → Outcome SuperBlock
free_all [] sb = ok sb
free_all (nr ∷ nrs) sb = bfree nr sb >>= free_all nrs

-- The lists of some numbers, one behind the other.
unfoldable pub flatten : (ℕ → List ℕ) → List ℕ → List ℕ
flatten lists [] = []
flatten lists (nr ∷ nrs) = lists nr ++ flatten lists nrs

-- The blocks under a word of an array: a block of data, or those under the words of a block of
-- indices and then that block. `b_data` gives the bytes of a block.
unfoldable pub blocks_under : (ℕ → List ℕ) → ℕ → ℕ → List ℕ
blocks_under b_data zero nr = if nr == 0 then [] else nr ∷ []
blocks_under b_data (suc level) nr =
    if nr == 0 then [] else flatten (blocks_under b_data level) (words_of (b_data nr)) ++ (nr ∷ [])

-- Those of the zones from `index` on, `n` of them.
unfoldable pub direct_blocks : ℕ → ℕ → List ℕ → List ℕ
direct_blocks zero index zone = []
direct_blocks (suc n) index zone =
    blocks_under (λ nr. []) 0 (get_or zone index 0) ++ direct_blocks n (index + 1) zone

-- The blocks of a file.
abbrev pub file_blocks : (ℕ → List ℕ) → List ℕ → List ℕ
file_blocks b_data zone =
    direct_blocks 7 0 zone
    ++ (blocks_under b_data 1 (get_or zone 7 0) ++ blocks_under b_data 2 (get_or zone 8 0))

free_all-append :
    (xs ys : List ℕ) (sb : SuperBlock) → free_all (xs ++ ys) sb ≡ (free_all xs sb >>= free_all ys)
unfolding free_all
free_all-append [] ys sb = refl
free_all-append (x ∷ xs) ys sb =
    >>=-eq (bfree x sb) (free_all (xs ++ ys)) (λ sb. free_all xs sb >>= free_all ys)
      (λ left e. free_all-append xs ys left)
    ∙ sym (>>=-assoc (bfree x sb) (free_all xs) (free_all ys))

-- The call stops the kernel where freeing the blocks does; otherwise it returns, the maps are as
-- freeing the blocks leaves them, and no byte of a block has changed.
abbrev pub Frees : ℕ → List ℕ → Fs → Outcome Fs → Type 0
Frees dev nrs fs run =
    ((free_all nrs (fs.supers dev) ≡ panic) × (run ≡ panic))
    ⊎ ((after : Fs) × (run ≡ ok after)
        × (free_all nrs (fs.supers dev) ≡ ok (after.supers dev))
        × (after.bytes ≡ fs.bytes))

pub Frees-then :
    (dev : ℕ) (xs ys : List ℕ) (fs : Fs) (run : Outcome Fs) (f : Fs → Outcome Fs)
    → Frees dev xs fs run
    → ((after : Fs) → run ≡ ok after → after.bytes ≡ fs.bytes → Frees dev ys after (f after))
    → Frees dev (xs ++ ys) fs (run >>= f)
Frees-then dev xs ys fs run f (inl (stop, e)) next =
    inl (free_all-append xs ys (fs.supers dev) ∙ rw stop refl, rw e refl)
Frees-then dev xs ys fs run f (inr (mid, e, freed, same)) next = elim (next mid e same) [
  | inl (stop, e') ↦ inl (free_all-append xs ys (fs.supers dev) ∙ rw freed stop, rw e e')
  | inr (after, e', freed', same') ↦
      inr (after, rw e e', free_all-append xs ys (fs.supers dev) ∙ rw freed freed', same' ∙ same)
]

-- What follows frees nothing.
pub Frees-last :
    (dev : ℕ) (xs : List ℕ) (fs : Fs) (run : Outcome Fs) (f : Fs → Outcome Fs)
    → Frees dev xs fs run
    → ((after : Fs)
        → run ≡ ok after
        → (done : Fs) × (f after ≡ ok done)
          × (done.supers dev ≡ after.supers dev)
          × (done.bytes ≡ after.bytes))
    → Frees dev xs fs (run >>= f)
Frees-last dev xs fs run f (inl (stop, e)) next = inl (stop, rw e refl)
Frees-last dev xs fs run f (inr (mid, e, freed, same)) next =
    let (done, e', maps, bytes) = next mid e in
    inr (done, rw e e', freed ∙ ap ok (sym maps), bytes ∙ same)

free_block-Frees : (dev nr : ℕ) (fs : Fs) → Frees dev (nr ∷ []) fs (free_block dev nr fs)
unfolding free_block free_all
free_block-Frees dev nr fs = by (bfree nr (fs.supers dev)) (free_block-Halts dev nr fs)
  where
    by :
        (m : Outcome SuperBlock)
        → Halts (m >>= λ sb. ok (set_super dev sb fs))
        → ((m >>= λ sb. ok sb) ≡ panic × ((m >>= λ sb. ok (set_super dev sb fs)) ≡ panic))
          ⊎ ((after : Fs) × ((m >>= λ sb. ok (set_super dev sb fs)) ≡ ok after)
              × ((m >>= λ sb. ok sb) ≡ ok (after.supers dev))
              × (after.bytes ≡ fs.bytes))
    by (ok sb) h = inr (set_super dev sb fs, refl, rw (same_super sb fs dev) refl, refl)
    by panic h = inl (refl, refl)
    by out_of_fuel h = absurd h

each-Frees :
    (dev : ℕ) (call : ℕ → Fs → Outcome Fs) (lists : ℕ → List ℕ) (b_data : ℕ → ℕ → List ℕ)
    → ((nr : ℕ) (fs : Fs) → fs.bytes ≡ b_data → Frees dev (lists nr) fs (call nr fs))
    → (nrs : List ℕ) (fs : Fs) → fs.bytes ≡ b_data
    → Frees dev (flatten lists nrs) fs (each call nrs fs)
unfolding each flatten free_all
each-Frees dev call lists b_data frees [] fs same = inr (fs, refl, refl, refl)
each-Frees dev call lists b_data frees (nr ∷ nrs) fs same =
    Frees-then dev (lists nr) (flatten lists nrs) fs (call nr fs) (each call nrs) (frees nr fs same)
      (λ after e kept. each-Frees dev call lists b_data frees nrs after (kept ∙ same))

inode_bfree-Frees-by :
    (level dev nr : ℕ) (b_data : ℕ → ℕ → List ℕ) (fs : Fs)
    → fs.bytes ≡ b_data
    → Frees dev (blocks_under (b_data dev) level nr) fs (inode_bfree level dev nr fs)
unfolding inode_bfree blocks_under free_all
inode_bfree-Frees-by zero dev nr b_data fs same = elim (Bool-cases (nr == 0)) [
  | inl b ↦ rw b (inr (fs, refl, refl, refl))
  | inr b ↦ rw b (free_block-Frees dev nr fs)
]
inode_bfree-Frees-by (suc level) dev nr b_data fs same = elim (Bool-cases (nr == 0)) [
  | inl b ↦ rw b (inr (fs, refl, refl, refl))
  | inr b ↦
      let words = words_of (b_data dev nr) in
      let read : words_of (fs.bytes dev nr) ≡ words = ap (λ r. words_of (r dev nr)) same in
      rw (b, read)
        (Frees-then dev (flatten (blocks_under (b_data dev) level) words) (nr ∷ []) fs
          (each (inode_bfree level dev) words fs) (free_block dev nr)
          (each-Frees dev (inode_bfree level dev) (blocks_under (b_data dev) level) b_data
            (λ nr fs same. inode_bfree-Frees-by level dev nr b_data fs same) words fs same)
          (λ after e kept. free_block-Frees dev nr after))
]

-- inode_bfree frees the blocks under its word.
pub inode_bfree-Frees :
    (level dev nr : ℕ) (fs : Fs)
    → Frees dev (blocks_under (fs.bytes dev) level nr) fs (inode_bfree level dev nr fs)
inode_bfree-Frees level dev nr fs = inode_bfree-Frees-by level dev nr fs.bytes fs refl

-- A zone that is cleared is not among those behind it.
pub direct_blocks-set :
    (n index k nr : ℕ) (zone : List ℕ)
    → k < index
    → direct_blocks n index (set zone k nr) ≡ direct_blocks n index zone
unfolding direct_blocks
direct_blocks-set zero index k nr zone low = refl
direct_blocks-set (suc n) index k nr zone low =
    rw
      (
        get_or-set_ne zone k index nr 0 (λ e. omega (arith, e, low)),
        direct_blocks-set n (index + 1) k nr zone (omega arith),
      )
      refl
