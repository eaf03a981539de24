-- ===== src/Fs/Entries.antt =====
-- The entries of a directory: find_entry, add_entry and dir_is_empty of fs/minix1/namei.c. An entry
-- is 16 bytes of a block, the number of an inode and a name; 64 entries fill a block.
use rdix.Common.{
  ℕ, zero, suc, ◌+◌, ◌*◌, ◌/◌, ◌%◌, Bool, true, false, ◌||◌, not, Option, none, some, List, [], ◌∷◌,
  Outcome, ok, panic, ◌>>=◌, ◌>>◌, assert, ltb, leb, ◌==◌, if◌then◌else◌, get_elem?, drop, u32,
}
use rdix.Text.{is_separator, vaild_file_name, strncpy}
use rdix.Fs.{Fs, dev_of, desc_of, set_desc, is_dir}
use rdix.Fs.Zones.{words_of, set_word, set_bytes, zones_idx_per_block, bmap}

abbrev pub dir_entry_size : ℕ
dir_entry_size = 16

-- `BLOCK_DENTRYS`, and `DIR_ENTRY_PER_BLOCK`
abbrev pub block_dentrys : ℕ
block_dentrys = 64

abbrev pub name_len : ℕ
name_len = 14

-- The block of an entry and its index there: `dir_entry *`, with the buffer.
abbrev pub Place : Type 0
Place = ℕ × ℕ

-- `dentry[i].inode`; behind the block is another's memory.
unfoldable pub entry_inode : ℕ → List ℕ → Outcome ℕ
entry_inode i b_data = elim (get_elem? (words_of b_data) (8 * i)) [ none ↦ panic | some nr ↦ ok nr ]

-- The memory at `dentry[i].name`, to the end of the block.
abbrev pub entry_memory : ℕ → List ℕ → List ℕ
entry_memory i b_data = drop (dir_entry_size * i + 2) b_data

-- `_match` with a name in memory, which it reads up to a NUL or the first difference, also behind the
-- 14 bytes of the name; behind the block is another's memory.
unfoldable pub match_at : List ℕ → List ℕ → Outcome Bool
match_at name [] = panic
match_at [] (e ∷ mem) = ok (e == 0)
match_at (c ∷ name) (e ∷ mem) =
    let rest = match_at name mem in
    if e == 0 then ok (is_separator c) else if c == e then rest else ok false

-- The start of a round of `find_entry`: the zone and its block, 0 where it has to be looked up.
abbrev pub next_zone : ℕ → ℕ → ℕ → Outcome (ℕ × ℕ)
next_zone i zone_idx block =
    if leb ((zone_idx + 1) * block_dentrys) i
    then (assert (ltb (zone_idx + 1) 7) >> ok (zone_idx + 1, 0))
    else ok (zone_idx, block)

abbrev pub block_or_look_up : ℕ → ℕ → ℕ → Fs → Outcome ℕ
block_or_look_up dir i block fs =
    if block == 0
    then (do (found, _) ← bmap dir (i / block_dentrys) false fs; ok found)
    else ok block

-- The `for` of `find_entry`, with `n` entries left from the `i`th on.
unfoldable pub find_from : ℕ → ℕ → ℕ → List ℕ → ℕ → ℕ → Fs → Outcome (Option Place)
find_from zero i dir name zone_idx block fs = ok none
find_from (suc n) i dir name zone_idx block fs = do
  (zone, known) ← next_zone i zone_idx block
  here ← block_or_look_up dir i known fs
  assert (not (here == 0))
  dev ← dev_of dir fs
  nr ← entry_inode i (fs.bytes dev here)
  let rest = find_from n (i + 1) dir name zone here fs
  if nr == 0 then rest else (do
    same ← match_at name (entry_memory i (fs.bytes dev here))
    if same then ok (some (here, i)) else rest)

-- `name` is NULL where it is `none`; so is the result.
unfoldable pub find_entry : ℕ → Option (List ℕ) → Fs → Outcome (Option Place)
find_entry dir name fs = do
  desc ← desc_of dir fs
  assert (is_dir desc.mode)
  elim name [
    | none ↦ ok none
    | some text ↦ find_from (desc.size / dir_entry_size) 0 dir text 0 0 fs
  ]

-- The `for` of `add_entry`, with `n` rounds left: `i`, the block and whether a free entry was found.
unfoldable pub slot_from : ℕ → ℕ → ℕ → ℕ → ℕ → Fs → Outcome (Bool × ℕ × ℕ × Fs)
slot_from zero i dir zone_idx block fs = ok (false, i, block, fs)
slot_from (suc n) i dir zone_idx block fs = do
  let look_up = leb zone_idx (i / zones_idx_per_block)
  (here, after) ← if look_up then bmap dir (i / zones_idx_per_block) (n == 0) fs else ok (block, fs)
  assert (not (here == 0))
  dev ← dev_of dir after
  nr ← entry_inode (i % zones_idx_per_block) (after.bytes dev here)
  if nr == 0
      then ok (true, i, here, after)
      else slot_from n (i + 1) dir (if look_up then zone_idx + 1 else zone_idx) here after

-- What follows the `for`: the name and the size are set.
unfoldable pub fill_entry : ℕ → List ℕ → ℕ → ℕ → Fs → Outcome Fs
fill_entry dir name i block fs = do
  let at = dir_entry_size * (i % zones_idx_per_block) + 2
  dev ← dev_of dir fs
  desc ← desc_of dir fs
  set_desc dir (record desc { size = u32 ((i + 1) * dir_entry_size) })
      (set_bytes dev block (strncpy at name name_len (fs.bytes dev block)) fs)

-- A name that is NULL is read at address 0.
unfoldable pub add_entry : ℕ → Option (List ℕ) → Fs → Outcome (Option Place × Fs)
add_entry dir none fs = panic
add_entry dir (some name) fs = do
  desc ← desc_of dir fs
  assert (is_dir desc.mode)
  assert (vaild_file_name name)
  old ← find_entry dir (some name) fs
  elim old [
    | some place ↦ ok (some place, fs)
    | none ↦ (do
      (found, i, block, after) ← slot_from (desc.size / dir_entry_size + 1) 0 dir 0 0 fs
      filled ← fill_entry dir name i block after
      ok (if found then some (block, i) else none, filled))
  ]

-- `res->inode`
unfoldable pub get_entry : ℕ → Option Place → Fs → Outcome ℕ
get_entry dev none fs = panic
get_entry dev (some (block, i)) fs = entry_inode i (fs.bytes dev block)

-- `res->inode = nr`
unfoldable pub set_entry : ℕ → Option Place → ℕ → Fs → Outcome Fs
set_entry dev none nr fs = panic
set_entry dev (some (block, i)) nr fs =
    ok (set_bytes dev block (set_word (8 * i) nr (fs.bytes dev block)) fs)

-- The `for` of `dir_is_empty`, with `n` entries left: how many are in use.
unfoldable pub count_entries : ℕ → ℕ → ℕ → ℕ → ℕ → Fs → Outcome ℕ
count_entries zero i dir zone_cnt block fs = ok 0
count_entries (suc n) i dir zone_cnt block fs = do
  let look_up = leb (zone_cnt * block_dentrys) i
  (here, _) ← if look_up then bmap dir zone_cnt false fs else ok (block, fs)
  dev ← dev_of dir fs
  nr ← entry_inode (i % block_dentrys) (fs.bytes dev here)
  assert (not (nr == 0) || leb 2 i)
  rest ← count_entries n (i + 1) dir (if look_up then zone_cnt + 1 else zone_cnt) here fs
  ok (if nr == 0 then rest else rest + 1)

unfoldable pub dir_is_empty : ℕ → Fs → Outcome Bool
dir_is_empty dir fs = do
  desc ← desc_of dir fs
  assert (is_dir desc.mode)
  let entries = desc.size / dir_entry_size
  elim (get_elem? desc.zone 0) [
    | none ↦ panic
    | some zone ↦ (do
      assert (leb 2 entries)
      assert (not (zone == 0))
      count ← count_entries entries 0 dir 0 0 fs
      ok (count == 2))
  ]
