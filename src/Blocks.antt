-- ===== src/Blocks.antt =====
-- The maps of blocks and inodes of a file system: balloc, bfree, ialloc and ifree of
-- fs/minix1/bmap.c, over the tables of Bitmap. A block buffer is the list of its bytes; the flag
-- that it is dirty is not modelled.
pub mod Free
mod Tests
use rdix.Common.{
  ℕ, zero, suc, ◌+◌, ◌-◌, ◌*◌, ◌/◌, Bool, true, false, Option, none, some, List, [], ◌∷◌, Outcome,
  ok, panic, ◌>>=◌, ◌>>◌, assert, ltb, get_elem?, set, u32, sub32,
}
use rdix.Bitmap.{Bitmap, bitmap_test, bitmap_set, bitmap_scan}

abbrev pub block_size : ℕ
block_size = 1024

abbrev pub block_bits : ℕ
block_bits = 8192

-- The maps in memory, and the three numbers of the super block that bound them.
pub record SuperBlock : Type 0 where
  pub zmaps : List (List ℕ)
  pub imaps : List (List ℕ)
  pub firstdatazone : ℕ
  pub zones : ℕ
  pub inodes : ℕ

-- the table over the map with number `i`, which begins at `first`
abbrev pub map_at : ℕ → ℕ → List ℕ → Bitmap
map_at first i b_data = record {
  start = b_data;
  length = block_size;
  offset = u32 (block_bits * i + first);
}

-- The `for` over the maps: the first free bit is taken, and must lie below the limit.
unfoldable pub scan_maps : ℕ → ℕ → ℕ → List (List ℕ) → Outcome (Option ℕ × List (List ℕ))
scan_maps first limit i [] = ok (none, [])
scan_maps first limit i (b_data ∷ maps) =
    let rest = scan_maps first limit (i + 1) maps in
    bitmap_scan (map_at first i b_data) 1 >>= λ r. elim r.0 [
      | some nr ↦ assert (ltb nr limit) >> ok (some nr, r.1.start ∷ maps)
      | none ↦ rest >>= λ s. ok (s.0, r.1.start ∷ s.1)
    ]

-- The last `assert` stops the kernel where no block is free.
unfoldable pub balloc : SuperBlock → Outcome (ℕ × SuperBlock)
unfolding scan_maps
balloc sb = do
  (block_nr, maps) ← scan_maps (sub32 sb.firstdatazone 1) sb.zones 0 sb.zmaps
  elim block_nr [ none ↦ panic | some nr ↦ ok (nr, record sb { zmaps = maps }) ]

unfoldable pub ialloc : SuperBlock → Outcome (Option ℕ × SuperBlock)
unfolding scan_maps
ialloc sb = do
  (inode_nr, maps) ← scan_maps 0 sb.inodes 0 sb.imaps
  ok (inode_nr, record sb { imaps = maps })

-- The bit of `nr`, in the map of that number, must be set and is cleared.
unfoldable pub free_bit : ℕ → ℕ → List (List ℕ) → Outcome (List (List ℕ))
free_bit first nr maps = elim (get_elem? maps (nr / block_bits)) [
  | none ↦ panic
  | some b_data ↦ (do
    used ← bitmap_test (map_at first (nr / block_bits) b_data) nr
    assert used
    (_, map) ← bitmap_set (map_at first (nr / block_bits) b_data) nr false
    ok (set maps (nr / block_bits) map.start))
]

unfoldable pub bfree : ℕ → SuperBlock → Outcome SuperBlock
unfolding free_bit
bfree block_nr sb = do
  assert (ltb block_nr sb.zones)
  maps ← free_bit (sub32 sb.firstdatazone 1) block_nr sb.zmaps
  ok (record sb { zmaps = maps })

unfoldable pub ifree : ℕ → SuperBlock → Outcome SuperBlock
unfolding free_bit
ifree inode_nr sb = do
  assert (ltb inode_nr sb.inodes)
  maps ← free_bit 0 inode_nr sb.imaps
  ok (record sb { imaps = maps })
