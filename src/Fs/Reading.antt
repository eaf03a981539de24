-- ===== src/Fs/Reading.antt =====
-- Reading to the end of a file: inode_read of fs/minix1/inode.c.
use rdix.Common.{
  ℕ, suc, ◌+◌, ◌-◌, ◌/◌, ◌%◌, ◌^◌, ◌<◌, ◌≡◌, ◌≢◌, refl, true, false, ◌||◌, some, List, arith, panic,
  ltb, leb, lt→ltb, ◌==◌, get_elem?, length, u32,
}
use rdix.Common.Int.{pos}
use rdix.Fs.{DInode, Fs, is_dir, is_file}
use rdix.Fs.Direct.{Held, dev_of-Held, desc_of-Held, bmap-direct}
use rdix.Fs.Files.{block_bytes, read_bytes, read_loop, read_from, inode_read}

read_bytes-panic :
    (at size : ℕ) (b_data : List ℕ) → length b_data < at + size → read_bytes at size b_data ≡ panic
unfolding read_bytes
read_bytes-panic at size b_data h =
    let over : leb (at + size) (length b_data) ≡ false = ground arith in rw over refl

-- A read of more bytes than a file has left, from a direct block, when these do not all lie in that
-- block, copies bytes from behind the block's buffer.
pub inode_read-panic :
    {i dev : ℕ} {desc : DInode} {fs : Fs} (len offset block : ℕ)
    → Held i dev desc fs
    → (is_file desc.mode || is_dir desc.mode) ≡ true
    → desc.size < 2 ^ 32
    → offset < desc.size
    → desc.size - offset < len
    → block_bytes < offset % block_bytes + (desc.size - offset)
    → offset / block_bytes < 7
    → offset / block_bytes < (fs.supers dev).zones
    → get_elem? desc.zone (offset / block_bytes) ≡ some block
    → block ≢ 0
    → length (fs.bytes dev block) ≡ block_bytes
    → inode_read i len (pos offset) fs ≡ panic
unfolding inode_read read_from read_loop
inode_read-panic {i} {dev} {desc} {fs} len offset block h kind small started more across direct
      volume zone there whole =
    let plain : u32 offset ≡ offset = omega arith in
    let open_file : leb desc.size offset ≡ false = ground arith in
    let fuel : len + 1 ≡ suc len = omega arith in
    let some_left : (len == 0) ≡ false = ground arith in
    let begin : offset + 0 ≡ offset = omega arith in
    let go : ltb offset desc.size ≡ true = lt→ltb offset desc.size started in
    let all_left : ltb (desc.size - offset) len ≡ true = lt→ltb (desc.size - offset) len more in
    let full : (block == 0) ≡ false = ground (arith, there) in
    let found = bmap-direct (offset / block_bytes) block false h direct volume zone refl in
    rw
      (
        desc_of-Held h,
        kind,
        plain,
        open_file,
        fuel,
        some_left,
        begin,
        go,
        found,
        full,
        dev_of-Held h,
        all_left,
        read_bytes-panic (offset % block_bytes) (desc.size - offset) (fs.bytes dev block)
            (omega (arith, whole, across)),
      )
      refl
