-- ===== src/Fs/Zones.antt =====
-- The blocks of a file: bmap of fs/minix1/bmap.c, and inode_bfree and inode_truncate of
-- fs/minix1/inode.c. A block number is a word of 16 bits, in the descriptor or in two bytes of a
-- block of indices.
use rdix.Common.{
  ℕ, zero, suc, ◌+◌, ◌-◌, ◌*◌, ◌/◌, ◌%◌, Bool, ◌&&◌, ◌||◌, none, some, List, [], ◌∷◌, Outcome, ok,
  panic, ◌>>=◌, ◌>>◌, assert, ltb, ◌==◌, if◌then◌else◌, get_elem?, set, replicate, u16,
}
use rdix.Blocks.{SuperBlock, balloc, bfree, block_size}
use rdix.Fs.{Fs, dev_of, desc_of, set_desc, is_dir, is_file}

abbrev pub zones_idx_per_block : ℕ
zones_idx_per_block = 512

-- `(u16 *)buf->b_data`
unfoldable pub words_of : List ℕ → List ℕ
words_of [] = []
words_of (low ∷ []) = []
words_of (low ∷ high ∷ b_data) = (low + 256 * high) ∷ words_of b_data

abbrev pub set_word : ℕ → ℕ → List ℕ → List ℕ
set_word index nr b_data = set (set b_data (2 * index) (nr % 256)) (2 * index + 1) (nr / 256)

-- `u16 *array` of `bmap`
pub data Array : Type 0 where
  zones : Array
  indices : ℕ → Array

abbrev pub set_bytes : ℕ → ℕ → List ℕ → Fs → Fs
set_bytes dev block b_data fs = record fs {
  bytes = λ d b. if d == dev && b == block then b_data else fs.bytes d b;
}

abbrev pub set_super : ℕ → SuperBlock → Fs → Fs
set_super dev sb fs = record fs { supers = λ d. if d == dev then sb else fs.supers d }

-- `array[index]`; behind the end of the array is another's memory.
unfoldable pub get_zone : ℕ → Array → ℕ → Fs → Outcome ℕ
get_zone i zones index fs = do
  desc ← desc_of i fs
  elim (get_elem? desc.zone index) [ none ↦ panic | some nr ↦ ok nr ]
get_zone i (indices block) index fs = do
  dev ← dev_of i fs
  elim (get_elem? (words_of (fs.bytes dev block)) index) [ none ↦ panic | some nr ↦ ok nr ]

unfoldable pub set_zone : ℕ → Array → ℕ → ℕ → Fs → Outcome Fs
set_zone i zones index nr fs = do
  desc ← desc_of i fs
  set_desc i (record desc { zone = set desc.zone index nr }) fs
set_zone i (indices block) index nr fs = do
  dev ← dev_of i fs
  ok (set_bytes dev block (set_word index nr (fs.bytes dev block)) fs)

-- `array[index] = balloc(inode->dev)`, and the new block with zeros.
unfoldable pub new_zone : ℕ → Array → ℕ → Fs → Outcome Fs
new_zone i array index fs = do
  dev ← dev_of i fs
  (nr, sb) ← balloc (fs.supers dev)
  after ← set_zone i array index (u16 nr) (set_super dev sb fs)
  ok (set_bytes dev (u16 nr) (replicate block_size 0) after)

-- The block at `array[index]`, created if it has to be.
unfoldable pub reckon : ℕ → Array → ℕ → Bool → Fs → Outcome (ℕ × Fs)
reckon i array index create fs = do
  nr ← get_zone i array index fs
  after ← if create && nr == 0 then new_zone i array index fs else ok fs
  found ← get_zone i array index after
  ok (found, after)

-- The `for` of `bmap`, from `level` down. `index` is that of the next level before `array` is.
unfoldable pub bmap_from : ℕ → ℕ → Array → ℕ → ℕ → ℕ → Bool → Fs → Outcome (ℕ × Fs)
bmap_from zero i array index block divider create fs = reckon i array index create fs
bmap_from (suc level) i array index block divider create fs = do
  (nr, after) ← reckon i array index create fs
  let next = u16 (block / divider)
  if nr == 0 then ok (nr, after) else (do
    buf ← get_zone i array next after
    bmap_from level i (indices buf) next (block % divider) (divider / zones_idx_per_block) create
        after)

unfoldable pub bmap : ℕ → ℕ → Bool → Fs → Outcome (ℕ × Fs)
bmap i block create fs = do
  dev ← dev_of i fs
  assert (ltb block (fs.supers dev).zones)
  if ltb block 7
      then bmap_from 0 i zones block block 1 create fs
      else if ltb (block - 7) (7 + zones_idx_per_block)
      then bmap_from 1 i zones 7 (block - 7) 1 create fs
      else (do
        let rest = block - 7 - (7 + zones_idx_per_block)
        assert (ltb rest (zones_idx_per_block * zones_idx_per_block + 7 + zones_idx_per_block))
        bmap_from 2 i zones 8 rest zones_idx_per_block create fs)

unfoldable pub free_block : ℕ → ℕ → Fs → Outcome Fs
free_block dev nr fs = do sb ← bfree nr (fs.supers dev); ok (set_super dev sb fs)

-- A `for` over the words of an array.
unfoldable pub each : (ℕ → Fs → Outcome Fs) → List ℕ → Fs → Outcome Fs
each call [] fs = ok fs
each call (nr ∷ nrs) fs = do after ← call nr fs; each call nrs after

-- `nr` is `array[index]`.
unfoldable pub inode_bfree : ℕ → ℕ → ℕ → Fs → Outcome Fs
inode_bfree zero dev nr fs = if nr == 0 then ok fs else free_block dev nr fs
inode_bfree (suc level) dev nr fs = if nr == 0 then ok fs else (do
  after ← each (inode_bfree level dev) (words_of (fs.bytes dev nr)) fs
  free_block dev nr after)

-- One zone of the descriptor is freed and cleared.
unfoldable pub drop_zone : ℕ → ℕ → ℕ → Fs → Outcome Fs
drop_zone i level index fs = do
  dev ← dev_of i fs
  nr ← get_zone i zones index fs
  after ← inode_bfree level dev nr fs
  set_zone i zones index 0 after

-- The `for` over the direct blocks, with `n` left.
unfoldable pub drop_direct : ℕ → ℕ → ℕ → Fs → Outcome Fs
drop_direct zero i index fs = ok fs
drop_direct (suc n) i index fs = do
  after ← drop_zone i 0 index fs
  drop_direct n i (index + 1) after

unfoldable pub drop_zones : ℕ → Fs → Outcome Fs
drop_zones i fs = do
  direct ← drop_direct 7 i 0 fs
  single ← drop_zone i 1 7 direct
  double ← drop_zone i 2 8 single
  desc ← desc_of i double
  set_desc i (record desc { size = 0 }) double

unfoldable pub inode_truncate : ℕ → Fs → Outcome Fs
inode_truncate i fs = do
  desc ← desc_of i fs
  if is_file desc.mode || is_dir desc.mode then drop_zones i fs else ok fs
