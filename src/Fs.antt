-- ===== src/Fs.antt =====
-- The file system of fs/minix1: inode.c, bmap.c, namei.c and file.c. The state is what its calls
-- share: the table of inodes in memory, the descriptors and the bytes on the disks as the buffers
-- have them, and the maps of each device (Blocks), which super.c gives for it. That buffers have a
-- user or are dirty is not modelled here, but in Buffers.
pub mod Zones
pub mod Entries
pub mod Paths
pub mod Calls
pub mod Names
pub mod Open
pub mod Table
pub mod Supers
pub mod Live
pub mod Users
pub mod Frame
pub mod Total
pub mod Removal
pub mod Direct
pub mod Indirect
pub mod Search
pub mod Behind
pub mod Slots
pub mod Freeing
pub mod Frees
pub mod Cuts
pub mod Truncate
pub mod Descriptors
pub mod Files
pub mod Writing
pub mod Reading
pub mod Pwd
mod Samples
mod Tests
mod FileTests
use Prim.Native.Nat.{bit_and}
use rdix.Common.{
  ℕ, zero, suc, ◌+◌, ◌-◌, ◌*◌, ◌/◌, ◌%◌, Bool, true, false, ◌&&◌, Option, none, some, List, [], ◌∷◌,
  Outcome, ok, panic, ◌>>=◌, ◌>>◌, assert, ltb, leb, ◌==◌, if◌then◌else◌, length, get_elem?, set,
  replicate, u32, sub32,
}
use rdix.Blocks.{SuperBlock}

-- `d_inode`, without the times.
pub record DInode : Type 0 where
  pub mode : ℕ
  pub uid : ℕ
  pub size : ℕ
  pub gid : ℕ
  pub nlinks : ℕ
  pub zone : List ℕ

-- `m_inode`: `dev` is `none` for EOF, `buf` the block of the descriptor, and `desc` its place there
-- with the device and the block. The lock, the times and `mount` are not modelled.
pub record MInode : Type 0 where
  pub dev : Option ℕ
  pub nr : ℕ
  pub count : ℕ
  pub desc : ℕ × ℕ × ℕ

pub record Fs : Type 0 where
  pub inode_table : List MInode
  pub descs : ℕ × ℕ × ℕ → DInode
  pub bytes : ℕ → ℕ → List ℕ
  pub supers : ℕ → SuperBlock

abbrev pub inode_nr : ℕ
inode_nr = 64

abbrev pub block_inodes : ℕ
block_inodes = 32

abbrev pub is_dev : ℕ → Option ℕ → Bool
is_dev d none = false
is_dev d (some e) = e == d

-- `inode->dev == EOF`
abbrev pub is_free : Option ℕ → Bool
is_free none = true
is_free (some d) = false

abbrev pub is_inode : ℕ → ℕ → MInode → Bool
is_inode dev nr inode = is_dev dev inode.dev && inode.nr == nr

unfoldable pub inode_init : List MInode
inode_init = replicate inode_nr (record { dev = none; nr = 0; count = 0; desc = (0, 0, 0) })

-- The `for` of `get_free_inode`, from entry `i` on.
unfoldable pub get_free_inode : ℕ → List MInode → Outcome ℕ
get_free_inode i [] = panic
get_free_inode i (inode ∷ table) =
    let rest = get_free_inode (i + 1) table in if is_free inode.dev then ok i else rest

unfoldable pub find_inode : ℕ → ℕ → ℕ → List MInode → Option ℕ
find_inode dev nr i [] = none
find_inode dev nr i (inode ∷ table) =
    let rest = find_inode dev nr (i + 1) table in if is_inode dev nr inode then some i else rest

unfoldable pub inode_block : SuperBlock → ℕ → ℕ
inode_block sb nr = 2 + length sb.imaps + length sb.zmaps + (nr - 1) / block_inodes

-- A pointer to an inode is its index in the table.
unfoldable pub inode_at : ℕ → Fs → Outcome MInode
inode_at i fs = elim (get_elem? fs.inode_table i) [ none ↦ panic | some inode ↦ ok inode ]

abbrev pub set_inode : ℕ → MInode → Fs → Fs
set_inode i inode fs = record fs { inode_table = set fs.inode_table i inode }

abbrev pub loaded : ℕ → ℕ → ℕ → MInode
loaded dev nr block = record {
  dev = some dev;
  nr = nr;
  count = 1;
  desc = (dev, block, (nr - 1) % block_inodes);
}

-- `++inode->count`
unfoldable pub grab : ℕ → Fs → Outcome Fs
unfolding inode_at
grab i fs = do
  inode ← inode_at i fs
  ok (set_inode i (record inode { count = u32 (inode.count + 1) }) fs)

unfoldable pub iget : ℕ → ℕ → Fs → Outcome (ℕ × Fs)
unfolding get_free_inode find_inode inode_block grab
iget dev nr fs = do
  assert (ltb 0 nr)
  elim (find_inode dev nr 0 fs.inode_table) [
    | some i ↦ (do after ← grab i fs; ok (i, after))
    | none ↦ (do
      assert (leb nr (fs.supers dev).inodes)
      i ← get_free_inode 0 fs.inode_table
      ok (i, set_inode i (loaded dev nr (inode_block (fs.supers dev) nr)) fs))
  ]

unfoldable pub iput : ℕ → Fs → Outcome Fs
unfolding inode_at
iput i fs = do
  inode ← inode_at i fs
  assert (ltb 0 inode.count)
  ok (
      if ltb 1 inode.count
      then set_inode i (record inode { count = inode.count - 1 }) fs
      else set_inode i (record inode { count = 0; dev = none }) fs)

-- `if (inode) iput(inode)`; the code calls `iput(NULL)` in places, which reads at address 0.
abbrev pub iput_null : Option ℕ → Fs → Outcome Fs
iput_null none fs = panic
iput_null (some i) fs = iput i fs

abbrev pub same_desc : ℕ × ℕ × ℕ → ℕ × ℕ × ℕ → Bool
same_desc (d, b, s) (e, c, t) = d == e && (b == c && s == t)

abbrev pub put_desc : ℕ × ℕ × ℕ → DInode → Fs → Fs
put_desc p desc fs = record fs { descs = λ q. if same_desc q p then desc else fs.descs q }

-- `inode->desc`
unfoldable pub desc_of : ℕ → Fs → Outcome DInode
unfolding inode_at
desc_of i fs = do inode ← inode_at i fs; ok (fs.descs inode.desc)

unfoldable pub set_desc : ℕ → DInode → Fs → Outcome Fs
unfolding inode_at
set_desc i desc fs = do inode ← inode_at i fs; ok (put_desc inode.desc desc fs)

-- `inode->dev` of an inode in use, and its number.
unfoldable pub dev_of : ℕ → Fs → Outcome ℕ
unfolding inode_at
dev_of i fs = do inode ← inode_at i fs; elim inode.dev [ none ↦ panic | some dev ↦ ok dev ]

-- `ISDIR(mode)` and `ISFILE(mode)`
abbrev pub is_dir : ℕ → Bool
is_dir mode = bit_and mode 61440 == 16384

abbrev pub is_file : ℕ → Bool
is_file mode = bit_and mode 61440 == 32768
