-- ===== src/Fs/Files.antt =====
-- Reading and writing the bytes of a file: inode_read and inode_write of fs/minix1/inode.c, and
-- sys_read and sys_write of fs/minix1/file.c, over bmap. The devices behind the descriptors 0 to 2
-- are left out, and so are the locks of the buffers.
use Prim.Native.Nat.{bit_and}
use rdix.Common.{
  ℕ, zero, suc, ◌+◌, ◌-◌, ◌*◌, ◌/◌, ◌%◌, true, false, ◌||◌, not, Option, none, some, List, [], ◌++◌,
  Outcome, ok, panic, out_of_fuel, ◌>>=◌, ◌>>◌, assert, ltb, leb, ◌==◌, if◌then◌else◌, length, take,
  drop, set, u32,
}
use rdix.Common.Int.{ℤ, pos, negsuc, ◌+ℤ◌}
use rdix.Text.{memcpy}
use rdix.Fs.{Fs, dev_of, desc_of, set_desc, is_dir, is_file}
use rdix.Fs.Zones.{set_bytes, bmap}
use rdix.Fs.Names.{o_accmode}
use rdix.Fs.Open.{OpenFile, Files, file_at, pattern}

abbrev pub block_bytes : ℕ
block_bytes = 1024

-- Bytes of a block; behind its end the memory is another's.
unfoldable pub read_bytes : ℕ → ℕ → List ℕ → Outcome (List ℕ)
read_bytes at size b_data =
    assert (leb (at + size) (length b_data)) >> ok (take size (drop at b_data))

-- The size of one round of `inode_read`, with `left` bytes left of the file.
abbrev pub read_size : ℕ → ℕ → ℕ → ℕ
read_size left len offset =
    if ltb left len
    then left
    else if ltb (block_bytes - offset % block_bytes) len
    then block_bytes - offset % block_bytes
    else len

-- The `while` of `inode_read`, on fuel: the bytes that it adds to `buf`. `size` is that of the file.
unfoldable pub read_loop : ℕ → ℕ → ℕ → ℕ → ℕ → ℕ → ℕ → Fs → Outcome (List ℕ)
read_loop zero i size ptr len total offset fs = out_of_fuel
read_loop (suc k) i size ptr len total offset fs =
    if len == 0
    then ok []
    else if ltb (ptr + total) size
    then (do
      (block, _) ← bmap i (offset / block_bytes) false fs
      assert (not (block == 0))
      dev ← dev_of i fs
      let n = read_size (size - (ptr + total)) len offset
      bytes ← read_bytes (offset % block_bytes) n (fs.bytes dev block)
      let next = (offset / block_bytes + 1) * block_bytes
      more ← read_loop k i size ptr (len - n) (total + n) next fs
      ok (bytes ++ more))
    else ok []

-- With an offset below 0 the memory before the block is read, or bmap stops the kernel.
unfoldable pub read_from : ℕ → ℕ → ℕ → ℤ → Fs → Outcome (List ℕ)
read_from i size len (pos offset) fs = read_loop (len + 1) i size offset len 0 offset fs
read_from i size len (negsuc n) fs = if len == 0 then ok [] else panic

-- `none` is EOF. The comparison with the size is unsigned.
unfoldable pub inode_read : ℕ → ℕ → ℤ → Fs → Outcome (Option (List ℕ))
inode_read i len offset fs = do
  desc ← desc_of i fs
  assert (is_file desc.mode || is_dir desc.mode)
  if leb desc.size (pattern offset)
      then ok none
      else (do bytes ← read_from i desc.size len offset fs; ok (some bytes))

abbrev pub write_size : ℕ → ℕ → ℕ
write_size len offset =
    if ltb (block_bytes - offset % block_bytes) len then block_bytes - offset % block_bytes else len

-- The `while` of `inode_write`, on fuel: the `len` that is left.
unfoldable pub write_loop : ℕ → ℕ → ℕ → List ℕ → ℕ → Fs → Outcome (ℕ × Fs)
write_loop zero i len buf offset fs = out_of_fuel
write_loop (suc k) i len buf offset fs = if len == 0 then ok (len, fs) else (do
  (block, after) ← bmap i (offset / block_bytes) true fs
  dev ← dev_of i after
  let size = write_size len offset
  let b_data = memcpy (offset % block_bytes) (take size buf) (after.bytes dev block)
  let next = (offset / block_bytes + 1) * block_bytes
  write_loop k i (len - size) (drop size buf) next (set_bytes dev block b_data after))

-- With an offset below 0, bytes before the block are written, or bmap stops the kernel.
unfoldable pub write_from : ℕ → ℕ → List ℕ → ℤ → Fs → Outcome (ℕ × Fs)
write_from i len buf (pos offset) fs = write_loop (len + 1) i len buf offset fs
write_from i len buf (negsuc n) fs = if len == 0 then ok (len, fs) else panic

-- The result of the call.
unfoldable pub inode_write : ℕ → List ℕ → ℕ → ℤ → Fs → Outcome (ℕ × Fs)
inode_write i buf len offset fs = do
  desc ← desc_of i fs
  assert (not (is_dir desc.mode))
  let end = u32 (len + pattern offset)
  grown ← if ltb desc.size end then set_desc i (record desc { size = end }) fs else ok fs
  write_from i len buf offset grown

abbrev pub o_rdonly : ℕ
o_rdonly = 0

abbrev pub o_wronly : ℕ
o_wronly = 1

-- `file->offset += len`
abbrev pub moved : ℕ → OpenFile → ℕ → Files → Files
moved fd file len files = set files fd (some (record file { offset = file.offset +ℤ pos len }))

-- `sys_read` of a descriptor above 2: the bytes, or `none` for EOF.
unfoldable pub sys_read : ℕ → ℕ → Files → Fs → Outcome (Option (List ℕ) × Files)
sys_read fd count files fs = do
  found ← file_at fd files
  elim found [
    | none ↦ panic
    | some file ↦ if bit_and file.flags o_accmode == o_wronly then ok (none, files) else (do
      bytes ← inode_read file.inode count file.offset fs
      elim bytes [
        | none ↦ ok (none, files)
        | some bs ↦ ok (some bs, moved fd file (length bs) files)
      ])
  ]

-- `sys_write` of a descriptor above 2; EOF is `none`.
unfoldable pub sys_write : ℕ → List ℕ → ℕ → Files → Fs → Outcome (Option ℕ × Files × Fs)
sys_write fd buf count files fs = do
  found ← file_at fd files
  elim found [
    | none ↦ panic
    | some file ↦ if bit_and file.flags o_accmode == o_rdonly then ok (none, files, fs) else (do
      (len, after) ← inode_write file.inode buf count file.offset fs
      ok (some len, moved fd file len files, after))
  ]
