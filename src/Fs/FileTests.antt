-- ===== src/Fs/FileTests.antt =====
-- Reading and writing the files of the small volume.
use rdix.Common.{
  ℕ, ◌<◌, ◌≤◌, ◌*◌, ◌≡◌, ◌≢◌, zero, suc, refl, none, some, [], ◌∷◌, arith, ok, get_elem?, replicate,
  set,
}
use rdix.Common.Int.{pos}
use rdix.Fs.{Fs, inode_at, desc_of, dev_of}
use rdix.Fs.Zones.{bmap, bmap_from, reckon, get_zone}
use rdix.Fs.Open.{OpenFile, Files}
use rdix.Fs.Direct.{Held}
use rdix.Fs.Files.{read_bytes, read_loop, read_from, inode_read, sys_write}
use rdix.Fs.Writing.{Direct, sized, sys_write-zero}
use rdix.Fs.Samples.{file_desc, small_fs, file-Held}

read_test : inode_read 0 3 (pos 1) small_fs ≡ ok (some (0 ∷ b'.' ∷ 0 ∷ []))
unfolding inode_read read_from read_loop read_bytes desc_of dev_of inode_at bmap bmap_from reckon
    get_zone
read_test = refl

-- `b`, open for reading and writing at offset 1000
abbrev open_b : OpenFile
open_b = record { inode = 1; offset = pos 1000; flags = 2; mode = 33188 }

abbrev open_files : Files
open_files = set (replicate 32 none) 3 (some open_b)

b-Direct : Direct 1 file_desc small_fs 1000 1002
b-Direct = record { low = omega arith; volume = omega arith; blocks = blocks }
  where
    blocks :
        (k : ℕ)
        → 0 ≤ k
        → k * 1024 < 1002
        → (nr : ℕ) × (get_elem? file_desc.zone k ≡ some nr) × (nr ≢ 0)
    blocks zero from below = (6, refl, λ e. absurd (omega arith))
    blocks (suc k) from below = absurd (omega arith)

sys_write-zero_example :
    (after : Fs) × (sys_write 3 (1 ∷ 2 ∷ []) 2 open_files small_fs ≡ ok (some 0, open_files, after))
    × Held 1 1 (sized 1002 file_desc) after
sys_write-zero_example =
    sys_write-zero 3 (1 ∷ 2 ∷ []) 2 open_files open_b refl refl refl file-Held refl b-Direct
