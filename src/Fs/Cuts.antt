-- ===== src/Fs/Cuts.antt =====
-- How inode_truncate of fs/minix1/inode.c changes the descriptor, step by step.
use rdix.Common.{
  ℕ, zero, suc, ◌+◌, ◌<◌, ◌≡◌, ◌∙◌, inl, inr, refl, sym, List, [], ◌∷◌, arith, Outcome, ok, >>=-inv,
  ok-inj, ◌==◌, ==→eq, ==→ne, Bool-cases, set, get_or, get_or-set_ne,
}
use mathlib.Core.Path.{subst}
use rdix.Blocks.{bfree}
use rdix.Fs.{DInode, Fs, set_desc}
use rdix.Fs.Zones.{
  zones, words_of, get_zone, set_zone, free_block, each, inode_bfree, drop_zone, drop_direct,
  drop_zones,
}
use rdix.Fs.Direct.{Held, inode_at-Held, dev_of-Held, desc_of-Held, with_zone, put_desc-Held}

-- Freeing blocks changes the maps only.
abbrev pub OnlyMaps : Fs → Fs → Type 0
OnlyMaps a b = (a.inode_table ≡ b.inode_table) × (a.descs ≡ b.descs) × (a.bytes ≡ b.bytes)

OnlyMaps-trans : (a b c : Fs) → OnlyMaps a b → OnlyMaps b c → OnlyMaps a c
OnlyMaps-trans a b c (d, e, f) (g, h, i) = (d ∙ g, e ∙ h, f ∙ i)

free_block-OnlyMaps :
    (dev nr : ℕ) (fs after : Fs) → free_block dev nr fs ≡ ok after → OnlyMaps fs after
unfolding free_block
free_block-OnlyMaps dev nr fs after e =
    let (sb, freed, last) = >>=-inv (bfree nr (fs.supers dev)) _ e in
    rw (← ok-inj last) (refl, refl, refl)

each-OnlyMaps :
    (call : ℕ → Fs → Outcome Fs)
    → ((nr : ℕ) (fs after : Fs) → call nr fs ≡ ok after → OnlyMaps fs after)
    → (nrs : List ℕ) (fs after : Fs) → each call nrs fs ≡ ok after
    → OnlyMaps fs after
unfolding each
each-OnlyMaps call keeps [] fs after e = rw (← ok-inj e) (refl, refl, refl)
each-OnlyMaps call keeps (nr ∷ nrs) fs after e =
    let (mid, first, rest) = >>=-inv (call nr fs) _ e in
    OnlyMaps-trans fs mid after (keeps nr fs mid first)
      (each-OnlyMaps call keeps nrs mid after rest)

pub inode_bfree-OnlyMaps :
    (level dev nr : ℕ) (fs after : Fs) → inode_bfree level dev nr fs ≡ ok after → OnlyMaps fs after
unfolding inode_bfree
inode_bfree-OnlyMaps zero dev nr fs after e = elim (Bool-cases (nr == 0)) [
  | inl b ↦ rw (← ok-inj (rw b at e)) (refl, refl, refl)
  | inr b ↦ free_block-OnlyMaps dev nr fs after (rw b at e)
]
inode_bfree-OnlyMaps (suc level) dev nr fs after e = elim (Bool-cases (nr == 0)) [
  | inl b ↦ rw (← ok-inj (rw b at e)) (refl, refl, refl)
  | inr b ↦
      let words = words_of (fs.bytes dev nr) in
      let (mid, all, last) = >>=-inv (each (inode_bfree level dev) words fs) _ (rw b at e) in
      OnlyMaps-trans fs mid after
        (each-OnlyMaps (inode_bfree level dev) (inode_bfree-OnlyMaps level dev) words fs mid all)
        (free_block-OnlyMaps dev nr mid after last)
]

-- The inode is still in use, with the descriptor, when only maps differ.
pub maps-Held :
    {i dev : ℕ} {desc : DInode} (fs after : Fs)
    → OnlyMaps fs after
    → Held i dev desc fs
    → Held i dev desc after
maps-Held fs after (table, descs, bytes) h = record {
  inode = h.inode;
  there = rw (← table) h.there;
  on = h.on;
  is = rw (← descs) h.is;
}

pub drop_zone-Held :
    {i dev : ℕ} {desc : DInode} (level index : ℕ) (fs after : Fs)
    → Held i dev desc fs
    → drop_zone i level index fs ≡ ok after
    → Held i dev (with_zone index 0 desc) after
unfolding drop_zone set_zone set_desc
drop_zone-Held {i} {dev} {desc} level index fs after h e =
    let (nr, got, rest) = >>=-inv (get_zone i zones index fs) _ (rw (dev_of-Held h) at e) in
    let (mid, freed, last) = >>=-inv (inode_bfree level dev nr fs) _ rest in
    let held = maps-Held fs mid (inode_bfree-OnlyMaps level dev nr fs mid freed) h in
    let put = ok-inj (rw (desc_of-Held held, inode_at-Held held) at last) in
    subst (Held i dev (with_zone index 0 desc)) put (put_desc-Held (with_zone index 0 desc) held)

abbrev pub cleared : ℕ → ℕ → DInode → DInode
cleared zero index desc = desc
cleared (suc n) index desc = cleared n (index + 1) (with_zone index 0 desc)

pub drop_direct-Held :
    {i dev : ℕ} {desc : DInode} (n index : ℕ) (fs after : Fs)
    → Held i dev desc fs
    → drop_direct n i index fs ≡ ok after
    → Held i dev (cleared n index desc) after
unfolding drop_direct
drop_direct-Held zero index fs after h e = subst (Held _ _ _) (ok-inj e) h
drop_direct-Held {i} {dev} {desc} (suc n) index fs after h e =
    let (mid, first, rest) = >>=-inv (drop_zone i 0 index fs) _ e in
    drop_direct-Held n (index + 1) mid after (drop_zone-Held 0 index fs mid h first) rest

-- The zones below `m` name no block.
abbrev pub ZeroBelow : ℕ → List ℕ → Type 0
ZeroBelow m zone = (k : ℕ) → k < m → get_or zone k 0 ≡ 0

pub set-ZeroBelow : (m : ℕ) (zone : List ℕ) → ZeroBelow m zone → ZeroBelow (m + 1) (set zone m 0)
set-ZeroBelow m zone zero_below k low = elim (Bool-cases (k == m)) [
  | inl b ↦ rw (==→eq k m b) (get_or-set_zero zone m)
  | inr b ↦
      get_or-set_ne zone m k 0 0 (λ e. ==→ne k m b (sym e))
      ∙ zero_below k (omega (arith, ==→ne k m b))
]
  where
    get_or-set_zero : (xs : List ℕ) (i : ℕ) → get_or (set xs i 0) i 0 ≡ 0
    get_or-set_zero [] i = refl
    get_or-set_zero (x ∷ xs) zero = refl
    get_or-set_zero (x ∷ xs) (suc i) = get_or-set_zero xs i

pub cleared-ZeroBelow :
    (n index : ℕ) (desc : DInode)
    → ZeroBelow index desc.zone
    → ZeroBelow (index + n) (cleared n index desc).zone
cleared-ZeroBelow zero index desc h = λ k low. h k (omega arith)
cleared-ZeroBelow (suc n) index desc h = λ k low.
    cleared-ZeroBelow n (index + 1) (with_zone index 0 desc) (set-ZeroBelow index desc.zone h) k
      (omega arith)

abbrev pub last_desc : DInode → DInode
last_desc desc = record (with_zone 8 0 (with_zone 7 0 (cleared 7 0 desc))) { size = 0 }

pub drop_zones-Held :
    {i dev : ℕ} {desc : DInode} (fs after : Fs)
    → Held i dev desc fs
    → drop_zones i fs ≡ ok after
    → Held i dev (last_desc desc) after
unfolding drop_zones set_desc
drop_zones-Held {i} {dev} {desc} fs after h e =
    let (direct, first, rest) = >>=-inv (drop_direct 7 i 0 fs) _ e in
    let (single, second, rest1) = >>=-inv (drop_zone i 1 7 direct) _ rest in
    let (double, third, last) = >>=-inv (drop_zone i 2 8 single) _ rest1 in
    let held =
      drop_zone-Held 2 8 single double
        (drop_zone-Held 1 7 direct single (drop_direct-Held 7 0 fs direct h first) second) third in
    let put = ok-inj (rw (desc_of-Held held, inode_at-Held held) at last) in
    subst (Held i dev (last_desc desc)) put (put_desc-Held (last_desc desc) held)
