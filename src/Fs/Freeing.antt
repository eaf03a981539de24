-- ===== src/Fs/Freeing.antt =====
-- Freeing the blocks of a file comes to an end: inode_truncate of fs/minix1/inode.c.
use rdix.Common.{
  ℕ, zero, suc, ◌+◌, ◌*◌, ◌/◌, Bool, false, List, [], ◌∷◌, Outcome, Halts, Halts->>=, ltb, leb,
  ◌==◌, get_elem?, u32, sub32,
}
use rdix.Bitmap.{Bitmap, bitmap_test, bitmap_set, bool_eq}
use rdix.Blocks.{map_at, block_bits, free_bit, bfree}
use rdix.Fs.{DInode, Fs, inode_at, desc_of, set_desc, dev_of}
use rdix.Fs.Zones.{
  zones, words_of, get_zone, set_zone, free_block, each, inode_bfree, drop_zone, drop_direct,
  drop_zones,
}
use rdix.Fs.Total.{
  if-Halts, option-Halts, check-Halts, inode_at-Halts, dev_of-Halts, desc_of-Halts, get_zone-Halts,
}

bitmap_test-Halts : (map : Bitmap) (idx : ℕ) → Halts (bitmap_test map idx)
unfolding bitmap_test
bitmap_test-Halts map idx =
    check-Halts (leb map.offset idx) _
      (check-Halts (ltb idx (u32 (map.offset + u32 (map.length * 8)))) _ tt)

bitmap_set-Halts : (map : Bitmap) (idx : ℕ) (status : Bool) → Halts (bitmap_set map idx status)
unfolding bitmap_set
bitmap_set-Halts map idx status = check-Halts (leb map.offset idx) _ (
    Halts->>= (bitmap_test map idx) _ (bitmap_test-Halts map idx)
      (λ old. if-Halts (bool_eq old status) _ _ tt tt))

free_bit-Halts : (first nr : ℕ) (maps : List (List ℕ)) → Halts (free_bit first nr maps)
unfolding free_bit
free_bit-Halts first nr maps = option-Halts (get_elem? maps (nr / block_bits)) _ _ tt λ b_data.
    let map = map_at first (nr / block_bits) b_data in
    Halts->>= (bitmap_test map nr) _ (bitmap_test-Halts map nr) λ used.
      check-Halts used _
        (Halts->>= (bitmap_set map nr false) _ (bitmap_set-Halts map nr false) (λ r. tt))

pub free_block-Halts : (dev nr : ℕ) (fs : Fs) → Halts (free_block dev nr fs)
unfolding free_block bfree
free_block-Halts dev nr fs =
    let sb = fs.supers dev in
    Halts->>= (bfree nr sb) _
      (check-Halts (ltb nr sb.zones) _ (
        Halts->>= (free_bit (sub32 sb.firstdatazone 1) nr sb.zmaps) _ (free_bit-Halts _ nr sb.zmaps)
          (λ maps. tt)))
      (λ r. tt)

each-Halts :
    (call : ℕ → Fs → Outcome Fs) (nrs : List ℕ) (fs : Fs)
    → ((nr : ℕ) (fs : Fs) → Halts (call nr fs))
    → Halts (each call nrs fs)
unfolding each
each-Halts call [] fs h = tt
each-Halts call (nr ∷ nrs) fs h =
    Halts->>= (call nr fs) _ (h nr fs) (λ after. each-Halts call nrs after h)

inode_bfree-Halts : (level dev nr : ℕ) (fs : Fs) → Halts (inode_bfree level dev nr fs)
unfolding inode_bfree
inode_bfree-Halts zero dev nr fs = if-Halts (nr == 0) _ _ tt (free_block-Halts dev nr fs)
inode_bfree-Halts (suc level) dev nr fs =
    let words = words_of (fs.bytes dev nr) in
    if-Halts (nr == 0) _ _ tt (
      Halts->>= (each (inode_bfree level dev) words fs) _
        (each-Halts (inode_bfree level dev) words fs (inode_bfree-Halts level dev))
        (λ after. free_block-Halts dev nr after))

set_desc-Halts : (i : ℕ) (desc : DInode) (fs : Fs) → Halts (set_desc i desc fs)
unfolding set_desc
set_desc-Halts i desc fs = Halts->>= (inode_at i fs) _ (inode_at-Halts i fs) (λ r. tt)

drop_zone-Halts : (i level index : ℕ) (fs : Fs) → Halts (drop_zone i level index fs)
unfolding drop_zone set_zone
drop_zone-Halts i level index fs = Halts->>= (dev_of i fs) _ (dev_of-Halts i fs) λ dev.
    Halts->>= (get_zone i zones index fs) _ (get_zone-Halts i zones index fs) λ nr.
      Halts->>= (inode_bfree level dev nr fs) _ (inode_bfree-Halts level dev nr fs) λ after.
        Halts->>= (desc_of i after) _ (desc_of-Halts i after) λ desc. set_desc-Halts i _ after

drop_direct-Halts : (n i index : ℕ) (fs : Fs) → Halts (drop_direct n i index fs)
unfolding drop_direct
drop_direct-Halts zero i index fs = tt
drop_direct-Halts (suc n) i index fs =
    Halts->>= (drop_zone i 0 index fs) _ (drop_zone-Halts i 0 index fs)
      (λ after. drop_direct-Halts n i (index + 1) after)

pub drop_zones-Halts : (i : ℕ) (fs : Fs) → Halts (drop_zones i fs)
unfolding drop_zones
drop_zones-Halts i fs = Halts->>= (drop_direct 7 i 0 fs) _ (drop_direct-Halts 7 i 0 fs) λ direct.
    Halts->>= (drop_zone i 1 7 direct) _ (drop_zone-Halts i 1 7 direct) λ single.
      Halts->>= (drop_zone i 2 8 single) _ (drop_zone-Halts i 2 8 single) λ double.
        Halts->>= (desc_of i double) _ (desc_of-Halts i double) λ desc. set_desc-Halts i _ double
