-- ===== src/Fs/Truncate.antt =====
-- inode_truncate of fs/minix1/inode.c: the blocks that it frees, and what is left of a file.
use rdix.Common.{
  ℕ, zero, suc, ◌+◌, ◌<◌, ◌≡◌, ◌⊎◌, ◌∙◌, inl, inr, refl, true, ◌||◌, List, arith, ok, panic, get_or,
  get_or-set_ne, length, length-set, get_elem?-eq-get_or, ◌≤◌, ◌>>=◌,
}
use mathlib.Core.Path.{ap₂, subst}
use rdix.Fs.{DInode, Fs, put_desc, set_desc, is_file, is_dir}
use rdix.Fs.Zones.{zones, set_zone, inode_bfree, drop_zone, drop_direct, drop_zones, inode_truncate}
use rdix.Fs.Direct.{Held, inode_at-Held, dev_of-Held, desc_of-Held, with_zone, get_zone-Held}
use rdix.Fs.Frees.{
  free_all, blocks_under, direct_blocks, file_blocks, Frees, Frees-then, Frees-last,
  inode_bfree-Frees, direct_blocks-set,
}
use rdix.Fs.Cuts.{
  inode_bfree-OnlyMaps, maps-Held, drop_zone-Held, drop_direct-Held, cleared, ZeroBelow,
  set-ZeroBelow, cleared-ZeroBelow, last_desc, drop_zones-Held,
}

-- What `inode_truncate` leaves of an inode.
pub record Cut (i dev : ℕ) (desc : DInode) (after : Fs) : Type 0 where
  pub left : DInode
  pub held : Held i dev left after
  pub empty : left.size ≡ 0
  pub no_zones : ZeroBelow 9 left.zone
  pub kind : left.mode ≡ desc.mode
  pub names : left.nlinks ≡ desc.nlinks

drop_zone-Frees :
    {i dev : ℕ} {desc : DInode} (level index : ℕ) (fs : Fs)
    → Held i dev desc fs
    → index < length desc.zone
    → Frees dev
        (blocks_under (fs.bytes dev) level (get_or desc.zone index 0))
        fs
        (drop_zone i level index fs)
unfolding drop_zone set_zone set_desc
drop_zone-Frees {i} {dev} {desc} level index fs h inside =
    let nr = get_or desc.zone index 0 in
    let got = get_zone-Held index nr h (get_elem?-eq-get_or desc.zone index 0 inside) in
    let run : drop_zone i level index fs
        ≡ (inode_bfree level dev nr fs >>= set_zone i zones index 0) =
      rw (dev_of-Held h, got) refl in
    elim (inode_bfree-Frees level dev nr fs) [
      | inl (stop, e) ↦ inl (stop, run ∙ rw e refl)
      | inr (after, e, freed, same) ↦
          let held = maps-Held fs after (inode_bfree-OnlyMaps level dev nr fs after e) h in
          let cut : set_zone i zones index 0 after
              ≡ ok (put_desc held.inode.desc (with_zone index 0 desc) after) =
            rw (desc_of-Held held, inode_at-Held held) refl in
          inr (put_desc held.inode.desc (with_zone index 0 desc) after, run ∙ rw e cut, freed, same)
    ]

drop_direct-Frees :
    {i dev : ℕ} {desc : DInode} (n index : ℕ) (fs : Fs)
    → Held i dev desc fs
    → index + n ≤ length desc.zone
    → Frees dev (direct_blocks n index desc.zone) fs (drop_direct n i index fs)
unfolding drop_direct direct_blocks blocks_under free_all
drop_direct-Frees zero index fs h inside = inr (fs, refl, refl, refl)
drop_direct-Frees {i} {dev} {desc} (suc n) index fs h inside =
    let rest = direct_blocks n (index + 1) desc.zone in
    let others = direct_blocks-set n (index + 1) index 0 desc.zone (omega arith) in
    Frees-then dev (blocks_under (fs.bytes dev) 0 (get_or desc.zone index 0)) rest fs
      (drop_zone i 0 index fs) (drop_direct n i (index + 1))
      (drop_zone-Frees 0 index fs h (omega arith))
      (λ after e kept.
        subst (λ nrs. Frees dev nrs after (drop_direct n i (index + 1) after)) others
          (drop_direct-Frees n (index + 1) after (drop_zone-Held 0 index fs after h e)
            (omega (arith, length-set desc.zone index 0, inside))))

get_or-cleared :
    (n index k : ℕ) (desc : DInode)
    → index + n ≤ k
    → (get_or (cleared n index desc).zone k 0 ≡ get_or desc.zone k 0)
      × (length (cleared n index desc).zone ≡ length desc.zone)
get_or-cleared zero index k desc out = (refl, refl)
get_or-cleared (suc n) index k desc out =
    let (zone, size) = get_or-cleared n (index + 1) k (with_zone index 0 desc) (omega arith) in
    (
      zone ∙ get_or-set_ne desc.zone index k 0 0 (λ e. omega (arith, e, out)),
      size ∙ length-set desc.zone index 0,
    )

-- The zone `k` of an inode that another call has changed elsewhere, in a file system with the bytes as
-- they were.
same_zone-Frees :
    {i dev : ℕ} {desc : DInode} (level k nr : ℕ) (b_data : ℕ → ℕ → List ℕ) (fs : Fs)
    → Held i dev desc fs
    → k < length desc.zone
    → get_or desc.zone k 0 ≡ nr
    → fs.bytes ≡ b_data
    → Frees dev (blocks_under (b_data dev) level nr) fs (drop_zone i level k fs)
same_zone-Frees {i} {dev} level k nr b_data fs h inside zone same =
    subst (λ nrs. Frees dev nrs fs (drop_zone i level k fs))
      (ap₂ (λ (r : ℕ → ℕ → List ℕ) n. blocks_under (r dev) level n) same zone)
      (drop_zone-Frees level k fs h inside)

drop_zones-Frees :
    {i dev : ℕ} {desc : DInode} (fs : Fs)
    → Held i dev desc fs
    → length desc.zone ≡ 9
    → Frees dev (file_blocks (fs.bytes dev) desc.zone) fs (drop_zones i fs)
unfolding drop_zones set_desc
drop_zones-Frees {i} {dev} {desc} fs h nine =
    let zone7 = get_or desc.zone 7 0 in
    let zone8 = get_or desc.zone 8 0 in
    let (at7, size) = get_or-cleared 7 0 7 desc (omega arith) in
    let (at8, _) = get_or-cleared 7 0 8 desc (omega arith) in
    let desc7 = cleared 7 0 desc in
    Frees-then dev (direct_blocks 7 0 desc.zone) _ fs (drop_direct 7 i 0 fs) _
      (drop_direct-Frees 7 0 fs h (omega (arith, nine)))
      λ direct e kept.
        let held = drop_direct-Held 7 0 fs direct h e in
        Frees-then dev (blocks_under (fs.bytes dev) 1 zone7) _ direct (drop_zone i 1 7 direct) _
          (same_zone-Frees 1 7 zone7 fs.bytes direct held (omega (arith, size, nine)) at7 kept)
          λ single e' kept'.
            let held' = drop_zone-Held 1 7 direct single held e' in
            Frees-last dev (blocks_under (fs.bytes dev) 2 zone8) single (drop_zone i 2 8 single) _
              (same_zone-Frees 2 8 zone8 fs.bytes single held'
                (omega (arith, length-set desc7.zone 7 0, size, nine))
                (get_or-set_ne desc7.zone 7 8 0 0 (λ e. absurd (omega (arith, e))) ∙ at8)
                (kept' ∙ kept))
              λ double e''.
                let last = drop_zone-Held 2 8 single double held' e'' in
                (
                  put_desc last.inode.desc (last_desc desc) double,
                  rw (desc_of-Held last, inode_at-Held last) refl,
                  refl,
                  refl,
                )

-- Truncating a file or a directory whose descriptor has its nine zones frees the blocks that it names,
-- the direct ones first, and those under a block of indices before that block. Where bfree stops the
-- kernel on one of them, in that order, so does the call. Otherwise it returns, with the maps as bfree
-- leaves them; the inode then has size 0, names no block in any of its nine zones, and has its mode
-- and its number of links as before.
pub inode_truncate-Cut :
    {i dev : ℕ} {desc : DInode} {fs : Fs}
    → Held i dev desc fs
    → (is_file desc.mode || is_dir desc.mode) ≡ true
    → length desc.zone ≡ 9
    → ((free_all (file_blocks (fs.bytes dev) desc.zone) (fs.supers dev) ≡ panic)
        × (inode_truncate i fs ≡ panic))
      ⊎ ((after : Fs) × (inode_truncate i fs ≡ ok after)
          × (free_all (file_blocks (fs.bytes dev) desc.zone) (fs.supers dev)
              ≡ ok (after.supers dev))
          × Cut i dev desc after)
unfolding inode_truncate
inode_truncate-Cut {i} {dev} {desc} {fs} h kind nine =
    let step : inode_truncate i fs ≡ drop_zones i fs =
      rw (inode_truncate, desc_of-Held h, kind) refl in
    elim (drop_zones-Frees fs h nine) [
      | inl (stop, stopped) ↦ inl (stop, step ∙ stopped)
      | inr (after, run, freed, same) ↦ inr (
        after,
        step ∙ run,
        freed,
        record {
          left = last_desc desc;
          held = drop_zones-Held fs after h run;
          empty = refl;
          no_zones =
              set-ZeroBelow 8 _
                (set-ZeroBelow 7 _ (cleared-ZeroBelow 7 0 desc (λ k low. absurd (omega arith))));
          kind = refl;
          names = refl;
        },
      )
    ]
