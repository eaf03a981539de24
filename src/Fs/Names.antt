-- ===== src/Fs/Names.antt =====
-- The calls that give a file its names, and open it: sys_link, sys_unlink and inode_open of
-- fs/minix1/namei.c. At `rollback` sys_link and sys_unlink give back inodes that are NULL, too.
use Prim.Native.Nat.{bit_and, bit_or}
use rdix.Common.{
  ℕ, ◌+◌, ◌-◌, Bool, true, false, ◌&&◌, not, Option, none, some, List, Outcome, ok, panic, ◌>>=◌,
  ◌>>◌, assert, ltb, ◌==◌, if◌then◌else◌, u8, u16,
}
use rdix.Text.{filename}
use rdix.Blocks.{ifree}
use rdix.Fs.{Fs, inode_at, dev_of, desc_of, set_desc, is_dir, iget, iput, iput_null}
use rdix.Fs.Zones.{set_super, inode_truncate}
use rdix.Fs.Entries.{Place, find_entry, add_entry, get_entry, set_entry}
use rdix.Fs.Paths.{Owner, namei, namei_from}
use rdix.Fs.Calls.{ifreg, isvtx, masked, new_inode}

-- `flag & bit`
abbrev pub has : ℕ → ℕ → Bool
has bit flag = not (bit_and flag bit == 0)

abbrev pub o_accmode : ℕ
o_accmode = 3

abbrev pub o_creat : ℕ
o_creat = 64

abbrev pub o_trunc : ℕ
o_trunc = 512

-- `rollback` of `sys_link` and `sys_unlink`.
unfoldable pub rollback : Option ℕ → Option ℕ → Bool → Fs → Outcome (Bool × Fs)
rollback inode dir ret fs = do left ← iput_null inode fs; done ← iput_null dir left; ok (ret, done)

-- `sys_link` once the directory is found and the name is new.
unfoldable pub link_entry : ℕ → ℕ → Option (List ℕ) → Fs → Outcome (Bool × Fs)
link_entry inode dir fname fs = do
  (entry, added) ← add_entry dir fname fs
  this ← inode_at inode added
  dev ← dev_of dir added
  named ← set_entry dev entry (u16 this.nr) added
  desc ← desc_of inode named
  linked ← set_desc inode (record desc { nlinks = u8 (desc.nlinks + 1) }) named
  rollback (some inode) (some dir) true linked

-- `sys_link` from the test of `fname` on.
unfoldable pub link_in : ℕ → ℕ → Option (List ℕ) → Fs → Outcome (Bool × Fs)
link_in inode dir none fs = rollback (some inode) (some dir) false fs
link_in inode dir (some fname) fs = do
  dev ← dev_of dir fs
  from ← dev_of inode fs
  if not (dev == from) then rollback (some inode) (some dir) false fs else (do
    old ← find_entry dir (some fname) fs
    elim old [
      | some place ↦ rollback (some inode) (some dir) false fs
      | none ↦ link_entry inode dir (some fname) fs
    ])

unfoldable pub sys_link : Owner → List ℕ → List ℕ → Fs → Outcome (Bool × Fs)
sys_link task oldname newname fs = do
  (found, held) ← namei task oldname fs
  elim found [
    | none ↦ rollback none none false held
    | some inode ↦ (do
      desc ← desc_of inode held
      if is_dir desc.mode then rollback (some inode) none false held else (do
        fname ← filename newname
        (above, both) ← namei_from task newname false held
        elim above [
          | none ↦ rollback (some inode) none false both
          | some dir ↦ link_in inode dir fname both
        ]))
  ]

-- The file has lost its last name.
unfoldable pub drop_file : ℕ → Fs → Outcome Fs
drop_file inode fs = do
  cut ← inode_truncate inode fs
  this ← inode_at inode cut
  dev ← dev_of inode cut
  sb ← ifree this.nr (cut.supers dev)
  ok (set_super dev sb cut)

-- `sys_unlink` once the inode of the entry is there.
unfoldable pub unlink_inode : Owner → ℕ → ℕ → Option Place → Fs → Outcome (Bool × Fs)
unlink_inode task inode dir entry fs = do
  desc ← desc_of inode fs
  let sticky = has isvtx desc.mode && not (task.uid == desc.uid)
  if is_dir desc.mode
      then rollback (some inode) (some dir) false fs
      else if sticky
      then rollback (some inode) (some dir) false fs
      else (do
        assert (ltb 0 desc.nlinks)
        dev ← dev_of dir fs
        cut ← set_entry dev entry 0 fs
        less ← set_desc inode (record desc { nlinks = desc.nlinks - 1 }) cut
        gone ← if desc.nlinks == 1 then drop_file inode less else ok less
        rollback (some inode) (some dir) true gone)

unfoldable pub sys_unlink : Owner → List ℕ → Fs → Outcome (Bool × Fs)
sys_unlink task pathname fs = do
  (found, held) ← namei_from task pathname false fs
  elim found [
    | none ↦ rollback none none false held
    | some dir ↦ (do
      fname ← filename pathname
      entry ← find_entry dir fname held
      elim entry [
        | none ↦ rollback none (some dir) false held
        | some place ↦ (do
          dev ← dev_of dir held
          nr ← get_entry dev (some place) held
          (inode, got) ← iget dev nr held
          unlink_inode task inode dir (some place) got)
      ])
  ]

-- A new file of `inode_open`.
unfoldable pub create_file : Owner → ℕ → Option (List ℕ) → ℕ → Fs → Outcome (ℕ × Fs)
create_file task dir fname mode fs = do
  (entry, added) ← add_entry dir fname fs
  dev ← dev_of dir added
  (nr, named) ← new_inode dev entry added
  (inode, got) ← iget dev nr named
  desc ← desc_of inode got
  fresh ←
      set_desc inode
        (record desc {
          uid = task.uid;
          gid = task.gid;
          mode = bit_or (masked mode task.umask) ifreg;
          size = 0;
          nlinks = 1;
        })
        got
  ok (inode, fresh)

-- `makeup` of `inode_open`.
unfoldable pub makeup : ℕ → ℕ → ℕ → Fs → Outcome (Option ℕ × Fs)
makeup inode dir flag fs = do
  desc ← desc_of inode fs
  if is_dir desc.mode && has o_accmode flag
      then (do left ← iput dir fs; done ← iput inode left; ok (none, done))
      else (do
        cut ← if has o_trunc flag then inode_truncate inode fs else ok fs
        left ← iput dir cut
        ok (some inode, left))

-- `inode_open` once the directory is found.
unfoldable pub open_in : Owner → ℕ → Option (List ℕ) → ℕ → ℕ → Fs → Outcome (Option ℕ × Fs)
open_in task dir none flag mode fs = ok (some dir, fs)
open_in task dir (some fname) flag mode fs = do
  entry ← find_entry dir (some fname) fs
  elim entry [
    | some place ↦ (do
      dev ← dev_of dir fs
      nr ← get_entry dev (some place) fs
      (inode, got) ← iget dev nr fs
      makeup inode dir flag got)
    | none ↦
        if has o_creat flag
        then (do
          (inode, made) ← create_file task dir (some fname) mode fs
          makeup inode dir flag made)
        else (do left ← iput dir fs; ok (none, left))
  ]

-- `none` is NULL. Without a directory `rollback` gives back an inode that is NULL.
unfoldable pub inode_open : Owner → List ℕ → ℕ → ℕ → Fs → Outcome (Option ℕ × Fs)
inode_open task pathname flag mode fs = do
  fname ← filename pathname
  (found, held) ← namei_from task pathname false fs
  elim found [ none ↦ panic | some dir ↦ open_in task dir fname flag mode held ]
