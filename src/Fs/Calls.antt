-- ===== src/Fs/Calls.antt =====
-- The calls that change directories: sys_mkdir, sys_rmdir, sys_link, sys_unlink and inode_open of
-- fs/minix1/namei.c. Their result is whether it is 0; otherwise it is EOF.
use Prim.Native.Nat.{bit_and, bit_or}
use rdix.Common.{
  ℕ, ◌+◌, ◌-◌, ◌^◌, Bool, true, false, ◌&&◌, ◌||◌, not, Option, none, some, List, [], ◌∷◌, Outcome,
  ok, panic, ◌>>=◌, ◌>>◌, assert, ltb, leb, ◌==◌, if◌then◌else◌, u8, u16,
}
use rdix.Text.{filename, strcpy}
use rdix.Blocks.{ialloc, ifree}
use rdix.Fs.{Fs, inode_at, set_inode, dev_of, desc_of, set_desc, is_dir, iget, iput}
use rdix.Fs.Zones.{set_word, set_bytes, set_super, bmap, inode_truncate}
use rdix.Fs.Entries.{Place, find_entry, add_entry, get_entry, set_entry, dir_is_empty}
use rdix.Fs.Paths.{Owner, namei_from}

abbrev pub ifdir : ℕ
ifdir = 16384

abbrev pub ifreg : ℕ
ifreg = 32768

abbrev pub isvtx : ℕ
isvtx = 512

-- `mode & 0777 & ~umask`
abbrev pub masked : ℕ → ℕ → ℕ
masked mode umask = bit_and (bit_and mode 511) (2 ^ 32 - 1 - umask)

-- What `ialloc` gives, as a word of 16 bits: EOF is the largest.
abbrev pub nr_or_eof : Option ℕ → ℕ
nr_or_eof none = 65535
nr_or_eof (some nr) = u16 nr

-- `res->inode = ialloc(dir->dev)`
unfoldable pub new_inode : ℕ → Option Place → Fs → Outcome (ℕ × Fs)
new_inode dev res fs = do
  (got, sb) ← ialloc (fs.supers dev)
  let nr = nr_or_eof got
  after ← set_entry dev res nr (set_super dev sb fs)
  ok (nr, after)

-- The entries `.` and `..` of a new directory.
abbrev pub dot_entries : ℕ → ℕ → List ℕ → List ℕ
dot_entries nr parent b_data =
    let dot = set_word 0 nr (strcpy 2 (b'.' ∷ []) b_data) in
    set_word 8 parent (strcpy 18 (b'.' ∷ b'.' ∷ []) dot)

-- What `sys_mkdir` sets in the new inode, and in its block.
unfoldable pub make_child : Owner → ℕ → ℕ → ℕ → Fs → Outcome Fs
make_child task mode dir child fs = do
  desc ← desc_of child fs
  fresh ←
      set_desc child
        (record desc {
          gid = task.gid;
          uid = task.uid;
          mode = bit_or (masked mode task.umask) ifdir;
          size = 32;
          nlinks = 2;
        })
        fs
  parent ← desc_of dir fresh
  linked ← set_desc dir (record parent { nlinks = u8 (parent.nlinks + 1) }) fresh
  (block, after) ← bmap child 0 true linked
  dev ← dev_of child after
  this ← inode_at child after
  up ← inode_at dir after
  ok (set_bytes dev block (dot_entries (u16 this.nr) (u16 up.nr) (after.bytes dev block)) after)

unfoldable pub sys_mkdir : Owner → List ℕ → ℕ → Fs → Outcome (Bool × Fs)
sys_mkdir task pathname mode fs = do
  childname ← filename pathname
  (found, held) ← namei_from task pathname false fs
  elim found [
    | none ↦ panic
    | some dir ↦ (do
      desc ← desc_of dir held
      assert (is_dir desc.mode)
      old ← find_entry dir childname held
      elim old [
        | some place ↦ panic
        | none ↦ (do
          (res, added) ← add_entry dir childname held
          dev ← dev_of dir added
          (nr, named) ← new_inode dev res added
          (child, got) ← iget dev nr named
          made ← make_child task mode dir child got
          left ← iput dir made
          done ← iput child left
          ok (true, done))
      ])
  ]

-- The end of `sys_rmdir`: the directory `node` goes.
unfoldable pub remove_dir : Owner → ℕ → Place → ℕ → Fs → Outcome (Bool × Fs)
remove_dir task dir res node fs = do
  desc ← desc_of node fs
  inode ← inode_at node fs
  dev ← dev_of dir fs
  from ← dev_of node fs
  assert (desc.nlinks == 2)
  cut ← inode_truncate node fs
  sb ← ifree inode.nr (cut.supers from)
  last ← desc_of node cut
  gone ← set_desc node (record last { nlinks = 0 }) (set_super from sb cut)
  this ← inode_at node gone
  above ← desc_of dir gone
  down ←
      set_desc dir (record above { nlinks = u8 (above.nlinks + 2 ^ 8 - 1) })
        (set_inode node (record this { nr = 0 }) gone)
  assert (leb 2 (u8 (above.nlinks + 2 ^ 8 - 1)))
  freed ← set_entry dev (some res) 0 down
  left ← iput dir freed
  done ← iput node left
  ok (true, done)

-- The tests of `sys_rmdir` once the entry is found.
unfoldable pub may_remove : Owner → ℕ → ℕ → Fs → Outcome Bool
may_remove task dir node fs = do
  desc ← desc_of node fs
  up ← desc_of dir fs
  inode ← inode_at node fs
  dev ← dev_of dir fs
  from ← dev_of node fs
  let sticky = not (bit_and up.mode isvtx == 0) && not (task.uid == desc.uid)
  if not (is_dir desc.mode) || (sticky || (not (dev == from) || ltb 1 inode.count))
      then ok false
      else dir_is_empty node fs

-- `sys_rmdir` from `find_entry` on.
unfoldable pub remove_entry : Owner → ℕ → Option (List ℕ) → Fs → Outcome (Bool × Fs)
remove_entry task dir childname fs = do
  old ← find_entry dir childname fs
  elim old [
    | none ↦ ok (false, fs)
    | some res ↦ (do
      dev ← dev_of dir fs
      nr ← get_entry dev (some res) fs
      (node, got) ← iget dev nr fs
      may ← may_remove task dir node got
      if may then remove_dir task dir res node got else ok (false, got))
  ]

unfoldable pub sys_rmdir : Owner → List ℕ → Fs → Outcome (Bool × Fs)
sys_rmdir task pathname fs = do
  childname ← filename pathname
  (found, held) ← namei_from task pathname false fs
  elim found [
    | none ↦ ok (false, held)
    | some dir ↦ elim childname [
      | some text ↦ (do left ← iput dir held; ok (false, left))
      | none ↦ remove_entry task dir none held
    ]
  ]
