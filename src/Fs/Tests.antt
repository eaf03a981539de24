-- ===== src/Fs/Tests.antt =====
-- Runs of the calls on the small volume, and instances of their theorems.
use rdix.Common.{
  ℕ, ◌+◌, ◌<◌, ◌≡◌, ◌≢◌, ◌⊎◌, zero, suc, refl, Bool, true, false, Option, none, some, List, [], ◌∷◌,
  ◌++◌, arith, Outcome, ok, panic, ◌>>=◌, Halts, replicate,
}
use rdix.Text.{strncpy, next_name, last_char, vaild_file_name}
use rdix.Fs.{Fs, inode_at, desc_of, dev_of, grab, iget, iput, find_inode}
use rdix.Fs.Zones.{bmap, bmap_from, reckon, get_zone, words_of, inode_truncate}
use rdix.Fs.Entries.{find_entry, add_entry, entry_inode, match_at, get_entry, find_from, Place}
use rdix.Fs.Paths.{namei_from, walk, enter, abspath}
use rdix.Fs.Calls.{sys_rmdir}
use rdix.Fs.Open.{Files}
use rdix.Fs.Table.{users}
use rdix.Fs.Live.{Sound, SameDisk, Got}
use rdix.Fs.Users.{iget-Got, iput-iget}
use rdix.Fs.Total.{namei_from-Halts}
use rdix.Fs.Removal.{Idle, sys_rmdir-Idle}
use rdix.Fs.Direct.{created, bmap-created}
use rdix.Fs.Indirect.{astray, bmap-astray}
use rdix.Fs.Search.{First, EndsIn, has_nul, find_entry-First}
use rdix.Fs.Slots.{filled, add_entry-first, number}
use rdix.Fs.Frees.{free_all, file_blocks}
use rdix.Fs.Truncate.{Cut, inode_truncate-Cut}
use rdix.Fs.Pwd.{IsPwd, abspath-IsPwd}
use rdix.Fs.Samples.{
  volume, root_bytes, root_desc, file_desc, root_node, file_node, free_node, small_fs, small-Ready,
  owner, path_b, root-Held, file-Held, root-IsDirectory, with_block,
}

iget-Got_example :
    (i : ℕ) × (after : Fs) × (iget 1 2 small_fs ≡ ok (i, after)) × Got 1 2 i small_fs after
iget-Got_example = iget-Got 1 2 small_fs small-Ready

iput-iget_example :
    (i : ℕ) × (held : Fs) × (after : Fs) × (iget 1 2 small_fs ≡ ok (i, held))
    × (iput i held ≡ ok after)
    × Sound after.inode_table
    × SameDisk small_fs after
    × ((d n : ℕ) → users d n after.inode_table ≡ users d n small_fs.inode_table)
iput-iget_example = iput-iget 1 2 small_fs small-Ready

namei_from-Halts_example : Halts (namei_from owner path_b true small_fs)
namei_from-Halts_example = namei_from-Halts owner path_b true small_fs

sys_rmdir-Idle_example : Idle small_fs (sys_rmdir owner path_b small_fs)
sys_rmdir-Idle_example = sys_rmdir-Idle owner path_b small_fs

-- the names of the root directory end within their 14 bytes
root_names : (j : ℕ) → j < 4 → EndsIn root_bytes j
unfolding has_nul
root_names zero low used = refl
root_names (suc zero) low used = refl
root_names (suc (suc zero)) low used = refl
root_names (suc (suc (suc zero))) low used = refl
root_names (suc (suc (suc (suc j)))) low used = absurd (omega arith)

find_entry-First_example :
    (found : Option Place) × (find_entry 0 (some (b'b' ∷ [])) small_fs ≡ ok found)
    × First 0 4 (b'b' ∷ []) 5 root_bytes found
find_entry-First_example = find_entry-First (b'b' ∷ []) root-IsDirectory (omega arith) root_names

abspath-IsPwd_example :
    (abspath (b'/' ∷ []) (b'b' ∷ []) ≡ panic)
    ⊎ ((pwd : List ℕ) × (abspath (b'/' ∷ []) (b'b' ∷ []) ≡ ok pwd) × IsPwd pwd)
unfolding last_char
abspath-IsPwd_example = abspath-IsPwd (b'/' ∷ []) (b'b' ∷ []) (refl, (b'/', refl, refl))

-- the root directory names block 5
inode_truncate-Cut_example :
    ((free_all (file_blocks (small_fs.bytes 1) root_desc.zone) volume ≡ panic)
      × (inode_truncate 0 small_fs ≡ panic))
    ⊎ ((after : Fs) × (inode_truncate 0 small_fs ≡ ok after)
        × (free_all (file_blocks (small_fs.bytes 1) root_desc.zone) volume ≡ ok (after.supers 1))
        × Cut 0 1 root_desc after)
inode_truncate-Cut_example = inode_truncate-Cut root-Held refl refl

bmap-astray_example : bmap 1 (7 + 1) false small_fs ≡ astray 1 1 file_desc small_fs
bmap-astray_example =
    bmap-astray 1 6 file-Held (omega arith) (omega arith) refl (λ e. absurd (omega arith))

-- block 1 of the file is new
abbrev grown : Fs
grown = created 1 7 (record volume { zmaps = (15 ∷ replicate 1023 0) ∷ [] }) file-Held

bmap-created_example :
    (bmap 1 1 true small_fs ≡ ok (7, grown))
    × (1 < 600 → ¬ (◌≡◌ {A = ℕ} 7 0) → (create : Bool) → bmap 1 1 create grown ≡ ok (7, grown))
unfolding file-Held
bmap-created_example =
    bmap-created 1 7 (record volume { zmaps = (15 ∷ replicate 1023 0) ∷ [] }) file-Held
      (omega arith) (omega arith) refl with_block (omega arith)

not_there : find_entry 0 (some (b'c' ∷ [])) small_fs ≡ ok none
unfolding find_entry find_from desc_of dev_of inode_at bmap bmap_from reckon get_zone entry_inode
    words_of match_at
not_there = refl

valid : vaild_file_name (b'c' ∷ []) ≡ true
unfolding vaild_file_name
valid = refl

busy_entries : (j : ℕ) → j < 2 → number root_bytes j ≢ 0
unfolding words_of
busy_entries zero low = λ e. absurd (omega arith)
busy_entries (suc zero) low = λ e. absurd (omega arith)
busy_entries (suc (suc j)) low = absurd (omega arith)

free_entry : number root_bytes 2 ≡ 0
unfolding words_of
free_entry = refl

-- `c` is written to the free entry, and `b`, which stands behind it, is no longer in the directory
add_entry-first_example :
    add_entry 0 (some (b'c' ∷ [])) small_fs
    ≡ ok (some (5, 2), filled root-IsDirectory (b'c' ∷ []) 2)
add_entry-first_example =
    add_entry-first root-IsDirectory (b'c' ∷ []) 2 valid not_there (omega arith) (omega arith)
      busy_entries free_entry

abbrev b_open : Fs
b_open = record small_fs {
  inode_table = root_node ∷ record file_node { count = 2 } ∷ free_node ∷ [];
}

abbrev files : Files
files = replicate 32 none

abbrev found_in : Outcome (Option ℕ × Fs) → Outcome (Option ℕ)
found_in run = run >>= λ r. ok r.0

looked_up : found_in (namei_from owner path_b true small_fs) ≡ ok (some 1)
unfolding namei_from walk enter grab iget iput find_inode find_entry find_from desc_of dev_of
    inode_at bmap bmap_from reckon get_zone entry_inode words_of match_at get_entry next_name
looked_up = refl

-- With the free entry before `b` filled, `b` is lost.
lost : find_entry 0 (some (b'b' ∷ [])) (filled root-IsDirectory (b'c' ∷ []) 2) ≡ ok none
unfolding find_entry find_from desc_of dev_of inode_at bmap bmap_from reckon get_zone entry_inode
    words_of match_at root-IsDirectory root-Held strncpy
lost = refl

-- The name of 14 characters in an entry, with another entry behind it, is not matched: the code reads
-- on. The same name with 13 characters is.
full_name_lost : match_at (replicate 14 b'a') (replicate 14 b'a' ++ 1 ∷ 0 ∷ b'b' ∷ []) ≡ ok false
unfolding match_at
full_name_lost = refl

short_name_found : match_at (replicate 13 b'a') (replicate 13 b'a' ++ 0 ∷ 1 ∷ 0 ∷ []) ≡ ok true
unfolding match_at
short_name_found = refl
