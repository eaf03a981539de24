-- ===== src/Fs/Writing.antt =====
-- What writing to a file returns: sys_write of fs/minix1/file.c.
use Prim.Native.Nat.{bit_and}
use rdix.Common.{
  ℕ, zero, suc, ◌+◌, ◌-◌, ◌*◌, ◌/◌, ◌%◌, ◌≤◌, ◌<◌, ◌≡◌, ◌≢◌, ◌∙◌, refl, inl, inr, true, false, ◌&&◌,
  some, List, arith, ok, ltb, ◌==◌, if◌then◌else◌, Bool-cases, ==→eq, get_elem?, set, take, drop,
  u32,
}
use rdix.Common.Int.{pos, ◌+ℤ◌}
use rdix.Text.{memcpy}
use rdix.Fs.{DInode, Fs, put_desc, set_desc, is_dir}
use rdix.Fs.Zones.{set_bytes}
use rdix.Fs.Names.{o_accmode}
use rdix.Fs.Open.{OpenFile, Files, file_at}
use rdix.Fs.Direct.{Held, inode_at-Held, dev_of-Held, desc_of-Held, bmap-direct, put_desc-Held}
use rdix.Fs.Files.{
  block_bytes, write_size, write_loop, write_from, inode_write, o_rdonly, sys_write,
}

-- The direct blocks of the bytes from `offset` to `end` are there.
pub record Direct (dev : ℕ) (desc : DInode) (fs : Fs) (offset end : ℕ) : Type 0 where
  pub low : end ≤ 7 * block_bytes
  pub volume : 7 ≤ (fs.supers dev).zones
  pub blocks :
      (k : ℕ)
      → offset / block_bytes ≤ k
      → k * block_bytes < end
      → (nr : ℕ) × (get_elem? desc.zone k ≡ some nr) × (nr ≢ 0)

write_loop-zero :
    {i dev : ℕ} {desc : DInode} (k len : ℕ) (buf : List ℕ) (offset end : ℕ) (fs : Fs)
    → len < k
    → (0 < len → offset + len ≡ end)
    → Held i dev desc fs
    → Direct dev desc fs offset end
    → (after : Fs) × (write_loop k i len buf offset fs ≡ ok (0, after)) × Held i dev desc after
unfolding write_loop
write_loop-zero zero len buf offset end fs enough ends h d = absurd (omega arith)
write_loop-zero {i} {dev} {desc} (suc k) len buf offset end fs enough ends h d =
    elim (Bool-cases (len == 0)) [
      | inl b ↦ (fs, rw (b, ==→eq len 0 b) refl, h)
      | inr b ↦
          let index = offset / block_bytes in
          let size = write_size len offset in
          let some_left : 0 < len = ground (arith, b) in
          let total : offset + len ≡ end = ends some_left in
          let (nr, zone, there) = d.blocks index (omega arith) (omega (arith, total, some_left)) in
          let under : index < 7 = omega (arith, total, some_left, d.low) in
          let old : (true && nr == 0) ≡ false = ground (arith, there) in
          let found = bmap-direct index nr true h under (omega (arith, under, d.volume)) zone old in
          let progress : 0 < size = ground arith in
          let within : size ≤ len = ground arith in
          let next : 0 < len - size → (index + 1) * block_bytes + (len - size) ≡ end =
            λ left. ground (arith, total, left) in
          let b_data = memcpy (offset % block_bytes) (take size buf) (fs.bytes dev nr) in
          let written : Held i dev desc (set_bytes dev nr b_data fs) = record {
            inode = h.inode;
            there = h.there;
            on = h.on;
            is = h.is;
          } in
          let (after, run, held) =
            write_loop-zero k (len - size) (drop size buf) ((index + 1) * block_bytes) end
              (set_bytes dev nr b_data fs) (omega arith) next written
              (record {
                low = d.low;
                volume = d.volume;
                blocks = λ j from below. d.blocks j (omega arith) below;
              }) in
          (after, rw (b, found, dev_of-Held h) run, held)
    ]

-- The descriptor with the size that the write leaves.
abbrev pub sized : ℕ → DInode → DInode
sized end desc = record desc { size = if ltb desc.size end then end else desc.size }

inode_write-zero :
    {i dev : ℕ} {desc : DInode} {fs : Fs} (buf : List ℕ) (len offset : ℕ)
    → Held i dev desc fs
    → is_dir desc.mode ≡ false
    → Direct dev desc fs offset (offset + len)
    → (after : Fs) × (inode_write i buf len (pos offset) fs ≡ ok (0, after))
      × Held i dev (sized (offset + len) desc) after
unfolding inode_write write_from set_desc
inode_write-zero {i} {dev} {desc} {fs} buf len offset h file d =
    let end : u32 (len + u32 offset) ≡ offset + len = omega (arith, d.low) in
    elim (Bool-cases (ltb desc.size (offset + len))) [
      | inl b ↦
          let bigger : DInode = record desc { size = offset + len } in
          let (after, run, held) =
            write_loop-zero (len + 1) len buf offset (offset + len)
              (put_desc h.inode.desc bigger fs) (omega arith) (λ left. refl)
              (put_desc-Held bigger h)
              (record { low = d.low; volume = d.volume; blocks = d.blocks }) in
          let start : inode_write i buf len (pos offset) fs
              ≡ write_loop (len + 1) i len buf offset (put_desc h.inode.desc bigger fs) =
            rw (desc_of-Held h, file, end, b) (rw (inode_at-Held h) refl) in
          (after, start ∙ run, rw b held)
      | inr b ↦
          let (after, run, held) =
            write_loop-zero (len + 1) len buf offset (offset + len) fs (omega arith) (λ left. refl)
              h d in
          let start : inode_write i buf len (pos offset) fs
              ≡ write_loop (len + 1) i len buf offset fs =
            rw (desc_of-Held h, file, end, b) refl in
          (after, start ∙ run, rw b held)
    ]

-- A write to an open file that is no directory, is open for writing, and has direct blocks for all the
-- bytes to be written: sys_write returns, and the file then is as long as the bytes reach, if it was
-- shorter. But the result is 0 however many bytes it has written, and the offset stays where it was.
pub sys_write-zero :
    {dev offset : ℕ} {desc : DInode} {fs : Fs} (fd : ℕ) (buf : List ℕ) (count : ℕ) (files : Files)
    (file : OpenFile)
    → get_elem? files fd ≡ some (some file)
    → (bit_and file.flags o_accmode == o_rdonly) ≡ false
    → file.offset ≡ pos offset
    → Held file.inode dev desc fs
    → is_dir desc.mode ≡ false
    → Direct dev desc fs offset (offset + count)
    → (after : Fs) × (sys_write fd buf count files fs
        ≡ ok (some 0, set files fd (some (record file { offset = pos offset })), after))
      × Held file.inode dev (sized (offset + count) desc) after
unfolding sys_write file_at
sys_write-zero {dev} {offset} {desc} {fs} fd buf count files file there writes at h plain d =
    let (after, run, held) = inode_write-zero buf count offset h plain d in
    let stays : pos offset +ℤ pos 0 ≡ pos offset =
      let low : ltb (offset + 0) 0 ≡ false = ground arith in
      let same : offset + 0 - 0 ≡ offset = omega arith in rw (low, same) refl in
    let found : file_at fd files ≡ ok (some file) = rw (file_at, there) refl in
    (after, rw (sys_write, found, writes, at, run, stays) refl, held)
