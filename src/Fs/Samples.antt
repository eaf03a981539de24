-- ===== src/Fs/Samples.antt =====
-- A small volume for the tests: the root directory with its entries, and a file.
use rdix.Common.{
  ℕ, ◌≤◌, ◌<◌, ◌≡◌, zero, suc, refl, sym, false, none, some, List, [], ◌∷◌, ◌++◌, arith, ok,
  some-inj, none-ne-some, get_elem?, replicate, if◌then◌else◌, ◌==◌,
}
use rdix.Blocks.{SuperBlock, balloc, scan_maps}
use rdix.Fs.{DInode, MInode, Fs, is_free}
use rdix.Common.Bytes.{test_bit, set_bit}
use rdix.Bitmap.{bitmap_scan, bitmap_test, bitmap_set}
use rdix.Fs.Paths.{Owner}
use rdix.Fs.Table.{copies, false-ne-true}
use rdix.Fs.Live.{Sound}
use rdix.Fs.Users.{Ready}
use rdix.Fs.Direct.{Held}
use rdix.Fs.Search.{IsDirectory}

abbrev pub volume : SuperBlock
volume = record {
  zmaps = (7 ∷ replicate 1023 0) ∷ [];
  imaps = (7 ∷ replicate 1023 0) ∷ [];
  firstdatazone = 5;
  zones = 600;
  inodes = 32;
}

-- `.`, `..`, an entry that is free, and `b`, of inode 2
abbrev pub root_bytes : List ℕ
root_bytes =
    1 ∷ 0 ∷ b'.' ∷ replicate 13 0
    ++ 1 ∷ 0 ∷ b'.' ∷ b'.' ∷ replicate 12 0
    ++ replicate 16 0
    ++ 2 ∷ 0 ∷ b'b' ∷ replicate 13 0
    ++ replicate 960 0

abbrev pub root_desc : DInode
root_desc = record {
  mode = 16877;
  uid = 0;
  size = 64;
  gid = 0;
  nlinks = 2;
  zone = 5 ∷ replicate 8 0;
}

-- a file with a block of indices
abbrev pub file_desc : DInode
file_desc = record {
  mode = 33188;
  uid = 0;
  size = 7169;
  gid = 0;
  nlinks = 1;
  zone = 6 ∷ 0 ∷ 0 ∷ 0 ∷ 0 ∷ 0 ∷ 0 ∷ 6 ∷ 0 ∷ [];
}

abbrev pub root_node : MInode
root_node = record { dev = some 1; nr = 1; count = 2; desc = (1, 4, 0) }

abbrev pub file_node : MInode
file_node = record { dev = some 1; nr = 2; count = 1; desc = (1, 4, 1) }

abbrev pub free_node : MInode
free_node = record { dev = none; nr = 0; count = 0; desc = (0, 0, 0) }

abbrev pub disk_bytes : ℕ → ℕ → List ℕ
disk_bytes dev block = if block == 5 then root_bytes else replicate 1024 0

abbrev pub disk_descs : ℕ × ℕ × ℕ → DInode
disk_descs (dev, block, slot) = if slot == 0 then root_desc else file_desc

abbrev pub small_fs : Fs
small_fs = record {
  inode_table = root_node ∷ file_node ∷ free_node ∷ [];
  descs = disk_descs;
  bytes = disk_bytes;
  supers = λ dev. volume;
}

pub small-Sound : Sound small_fs.inode_table
small-Sound = record { once = once; used = used }
  where
    once : (d n : ℕ) → copies d n small_fs.inode_table ≤ 1
    once d n = ground arith

    used :
        (i : ℕ) (inode : MInode)
        → get_elem? small_fs.inode_table i ≡ some inode
        → is_free inode.dev ≡ false
        → 0 < inode.count
    used zero inode e live = let same = some-inj e in rw (← same) (omega arith)
    used (suc zero) inode e live = let same = some-inj e in rw (← same) (omega arith)
    used (suc (suc zero)) inode e live =
        let same = some-inj e in absurd (false-ne-true (sym (rw (← same) at live)))
    used (suc (suc (suc i))) inode e live = absurd (none-ne-some e)

pub small-Ready : Ready 1 2 small_fs
small-Ready = record {
  sound = small-Sound;
  positive = omega arith;
  exists = omega arith;
  room = omega arith;
  few = omega arith;
}

abbrev pub owner : Owner
owner = record { uid = 0; gid = 0; umask = 18; i_root = 0; i_pwd = 0; pwd = b'/' ∷ [] }

-- `/b`
abbrev pub path_b : List ℕ
path_b = b'/' ∷ b'b' ∷ []

unfoldable pub root-Held : Held 0 1 root_desc small_fs
root-Held = record { inode = root_node; there = refl; on = refl; is = refl }

unfoldable pub file-Held : Held 1 1 file_desc small_fs
file-Held = record { inode = file_node; there = refl; on = refl; is = refl }

unfoldable pub root-IsDirectory : IsDirectory 0 1 root_desc 5 small_fs
root-IsDirectory = record {
  held = root-Held;
  kind = refl;
  zone = refl;
  there = λ e. absurd (omega arith);
  volume = omega arith;
  whole = refl;
}

pub with_block : balloc volume ≡ ok (7, record volume { zmaps = (15 ∷ replicate 1023 0) ∷ [] })
unfolding balloc scan_maps bitmap_scan bitmap_test test_bit bitmap_set set_bit
with_block = refl
