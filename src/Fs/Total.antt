-- ===== src/Fs/Total.antt =====
-- Looking up a path comes to an end: _namei of fs/minix1/namei.c and what it calls.
use rdix.Common.{
  ℕ, zero, suc, ◌+◌, ◌-◌, ◌*◌, ◌≤◌, Bool, true, false, ◌&&◌, not, Option, none, some, List, [], ◌∷◌,
  arith, Outcome, ok, panic, ◌>>◌, Halts, Halts->>=, assert, ltb, leb, ◌==◌, if◌then◌else◌, length,
  get_elem?,
}
use rdix.Text.{is_separator}
use rdix.Text.Names.{next_name-shorter}
use rdix.Fs.{
  Fs, MInode, find_inode, get_free_inode, is_free, inode_at, dev_of, desc_of, is_dir, grab, iget,
  iput,
}
use rdix.Fs.Zones.{
  Array, zones, indices, words_of, get_zone, reckon, bmap_from, bmap, zones_idx_per_block,
}
use rdix.Fs.Entries.{
  Place, entry_inode, match_at, next_zone, block_dentrys, block_or_look_up, find_from, find_entry,
  get_entry,
}
use rdix.Fs.Paths.{Owner, is_nil, enter, walk, namei_from}

assert-Halts : (b : Bool) → Halts (assert b)
assert-Halts true = tt
assert-Halts false = tt

pub if-Halts {ℓ} :
    {A : Type ℓ} (b : Bool) (m n : Outcome A) → Halts m → Halts n → Halts (if b then m else n)
if-Halts true m n h k = h
if-Halts false m n h k = k

get-Halts {ℓ} :
    {A : Type ℓ} (o : Option A) → Halts {A = A} (elim o [ none ↦ panic | some a ↦ ok a ])
get-Halts none = tt
get-Halts (some a) = tt

pub option-Halts {ℓ κ} :
    {A : Type ℓ} {B : Type κ} (o : Option A) (m : Outcome B) (f : A → Outcome B)
    → Halts m
    → ((a : A) → Halts (f a))
    → Halts {A = B} (elim o [ none ↦ m | some a ↦ f a ])
option-Halts none m f h k = h
option-Halts (some a) m f h k = k a

pub check-Halts {ℓ} : {B : Type ℓ} (b : Bool) (m : Outcome B) → Halts m → Halts (assert b >> m)
check-Halts true m h = h
check-Halts false m h = tt

pub inode_at-Halts : (i : ℕ) (fs : Fs) → Halts (inode_at i fs)
unfolding inode_at
inode_at-Halts i fs = get-Halts (get_elem? fs.inode_table i)

pub dev_of-Halts : (i : ℕ) (fs : Fs) → Halts (dev_of i fs)
unfolding dev_of
dev_of-Halts i fs = Halts->>= (inode_at i fs) _ (inode_at-Halts i fs) (λ inode. get-Halts inode.dev)

pub desc_of-Halts : (i : ℕ) (fs : Fs) → Halts (desc_of i fs)
unfolding desc_of
desc_of-Halts i fs = Halts->>= (inode_at i fs) _ (inode_at-Halts i fs) (λ inode. tt)

pub get_zone-Halts :
    (i : ℕ) (array : Array) (index : ℕ) (fs : Fs) → Halts (get_zone i array index fs)
unfolding get_zone
get_zone-Halts i zones index fs =
    Halts->>= (desc_of i fs) _ (desc_of-Halts i fs) (λ desc. get-Halts (get_elem? desc.zone index))
get_zone-Halts i (indices block) index fs =
    Halts->>= (dev_of i fs) _ (dev_of-Halts i fs)
      (λ dev. get-Halts (get_elem? (words_of (fs.bytes dev block)) index))

bmap_from-Halts :
    (level i : ℕ) (array : Array) (index block divider : ℕ) (fs : Fs)
    → Halts (bmap_from level i array index block divider false fs)
unfolding bmap_from reckon
bmap_from-Halts zero i array index block divider fs =
    Halts->>= (get_zone i array index fs) _ (get_zone-Halts i array index fs) (λ nr.
      Halts->>= (get_zone i array index fs) _ (get_zone-Halts i array index fs) (λ found. tt))
bmap_from-Halts (suc level) i array index block divider fs =
    Halts->>= (reckon i array index false fs) _
      (Halts->>= (get_zone i array index fs) _ (get_zone-Halts i array index fs) (λ nr.
        Halts->>= (get_zone i array index fs) _ (get_zone-Halts i array index fs) (λ found. tt)))
      (λ (nr, after). if-Halts (nr == 0) _ _ tt (
        Halts->>= (get_zone i array _ after) _ (get_zone-Halts i array _ after)
          (λ buf. bmap_from-Halts level i (indices buf) _ _ _ after)))

pub bmap-Halts : (i block : ℕ) (fs : Fs) → Halts (bmap i block false fs)
unfolding bmap
bmap-Halts i block fs = Halts->>= (dev_of i fs) _ (dev_of-Halts i fs) λ dev.
    Halts->>= (assert (ltb block (fs.supers dev).zones)) _ (assert-Halts _) λ _.
      if-Halts (ltb block 7) _ _ (bmap_from-Halts 0 i zones block block 1 fs) (
        if-Halts (ltb (block - 7) (7 + zones_idx_per_block)) _ _
          (bmap_from-Halts 1 i zones 7 (block - 7) 1 fs)
          (Halts->>= (assert _) _ (assert-Halts _)
            (λ _. bmap_from-Halts 2 i zones 8 _ zones_idx_per_block fs)))

look_up-Halts : (dir i block : ℕ) (fs : Fs) → Halts (block_or_look_up dir i block fs)
look_up-Halts dir i block fs =
    if-Halts (block == 0) _ _ (Halts->>= (bmap dir _ false fs) _ (bmap-Halts dir _ fs) (λ r. tt)) tt

next_zone-Halts : (i zone_idx block : ℕ) → Halts (next_zone i zone_idx block)
next_zone-Halts i zone_idx block =
    if-Halts (leb ((zone_idx + 1) * block_dentrys) i) _ _
      (check-Halts (ltb (zone_idx + 1) 7) (ok (zone_idx + 1, 0)) tt) tt

entry_inode-Halts : (i : ℕ) (b_data : List ℕ) → Halts (entry_inode i b_data)
unfolding entry_inode
entry_inode-Halts i b_data = get-Halts (get_elem? (words_of b_data) (8 * i))

match_at-Halts : (name mem : List ℕ) → Halts (match_at name mem)
unfolding match_at
match_at-Halts name [] = tt
match_at-Halts [] (e ∷ mem) = tt
match_at-Halts (c ∷ name) (e ∷ mem) =
    if-Halts (e == 0) _ _ tt (if-Halts (c == e) _ _ (match_at-Halts name mem) tt)

find_from-Halts :
    (n i dir : ℕ) (name : List ℕ) (zone_idx block : ℕ) (fs : Fs)
    → Halts (find_from n i dir name zone_idx block fs)
unfolding find_from
find_from-Halts zero i dir name zone_idx block fs = tt
find_from-Halts (suc n) i dir name zone_idx block fs =
    Halts->>= (next_zone i zone_idx block) _ (next_zone-Halts i zone_idx block) λ (zone, known).
      Halts->>= (block_or_look_up dir i known fs) _ (look_up-Halts dir i known fs) λ here.
        Halts->>= (assert _) _ (assert-Halts _) λ _.
          Halts->>= (dev_of dir fs) _ (dev_of-Halts dir fs) λ dev.
            Halts->>= (entry_inode i (fs.bytes dev here)) _ (entry_inode-Halts i _) λ nr.
              let more = find_from-Halts n (i + 1) dir name zone here fs in
              if-Halts (nr == 0) _ _ more (
                Halts->>= (match_at name _) _ (match_at-Halts name _)
                  (λ same. if-Halts same _ _ tt more))

pub find_entry-Halts : (dir : ℕ) (name : Option (List ℕ)) (fs : Fs) → Halts (find_entry dir name fs)
unfolding find_entry
find_entry-Halts dir name fs = Halts->>= (desc_of dir fs) _ (desc_of-Halts dir fs) λ desc.
    Halts->>= (assert (is_dir desc.mode)) _ (assert-Halts _) λ _.
      option-Halts name (ok none) (λ text. find_from _ 0 dir text 0 0 fs) tt
        (λ text. find_from-Halts _ 0 dir text 0 0 fs)

pub grab-Halts : (i : ℕ) (fs : Fs) → Halts (grab i fs)
unfolding grab
grab-Halts i fs = Halts->>= (inode_at i fs) _ (inode_at-Halts i fs) (λ inode. tt)

pub iput-Halts : (i : ℕ) (fs : Fs) → Halts (iput i fs)
unfolding iput
iput-Halts i fs =
    Halts->>= (inode_at i fs) _ (inode_at-Halts i fs)
      (λ inode. check-Halts (ltb 0 inode.count) (ok _) tt)

get_free_inode-Halts : (i : ℕ) (table : List MInode) → Halts (get_free_inode i table)
unfolding get_free_inode
get_free_inode-Halts i [] = tt
get_free_inode-Halts i (inode ∷ table) =
    if-Halts (is_free inode.dev) _ _ tt (get_free_inode-Halts (i + 1) table)

iget-Halts : (dev nr : ℕ) (fs : Fs) → Halts (iget dev nr fs)
unfolding iget
iget-Halts dev nr fs = Halts->>= (assert (ltb 0 nr)) _ (assert-Halts _) λ _.
    option-Halts (find_inode dev nr 0 fs.inode_table) _ _
      (check-Halts (leb nr (fs.supers dev).inodes) _ (
        Halts->>= (get_free_inode 0 fs.inode_table) _ (get_free_inode-Halts 0 fs.inode_table)
          (λ r. tt)))
      (λ i. Halts->>= (grab i fs) _ (grab-Halts i fs) (λ r. tt))

get_entry-Halts : (dev : ℕ) (place : Option Place) (fs : Fs) → Halts (get_entry dev place fs)
unfolding get_entry
get_entry-Halts dev none fs = tt
get_entry-Halts dev (some (block, i)) fs = entry_inode-Halts i (fs.bytes dev block)

enter-Halts : (node : ℕ) (place : Option Place) (fs : Fs) → Halts (enter node place fs)
unfolding enter
enter-Halts node place fs = Halts->>= (dev_of node fs) _ (dev_of-Halts node fs) λ dev.
    Halts->>= (iput node fs) _ (iput-Halts node fs) λ left.
      Halts->>= (get_entry dev place left) _ (get_entry-Halts dev place left)
        λ nr. iget-Halts dev nr left

walk-Halts :
    (k : ℕ) (path : List ℕ) (node : ℕ) (dorc : Bool) (fs : Fs)
    → length path ≤ k
    → Halts (walk k path node dorc fs)
unfolding walk
walk-Halts zero [] node dorc fs h = tt
walk-Halts (suc k) [] node dorc fs h = tt
walk-Halts zero (c ∷ s) node dorc fs h = absurd (omega arith)
walk-Halts (suc k) (c ∷ s) node dorc fs h =
    let (ptr, next, short) = next_name-shorter c s in
    Halts->>= (desc_of node fs) _ (desc_of-Halts node fs) λ desc.
      Halts->>= (assert (is_dir desc.mode)) _ (assert-Halts _) λ _.
        Halts->>= (find_entry node (some (c ∷ s)) fs) _ (find_entry-Halts node _ fs) λ place.
          rw next (
            if-Halts (is_nil ptr && not dorc) _ _ tt (
              option-Halts place _ _ (Halts->>= (iput node fs) _ (iput-Halts node fs) (λ r. tt))
                (λ e.
                  Halts->>= (enter node (some e) fs) _ (enter-Halts node (some e) fs)
                    (λ (child, after). walk-Halts k ptr child dorc after (omega arith)))))

-- Looking up a path comes to an end, whatever the directories hold: the length of the path is fuel
-- enough.
pub namei_from-Halts :
    (task : Owner) (path : List ℕ) (dorc : Bool) (fs : Fs) → Halts (namei_from task path dorc fs)
unfolding namei_from
namei_from-Halts task [] dorc fs = tt
namei_from-Halts task (c ∷ s) dorc fs =
    if-Halts (is_separator c) _ _
      (Halts->>= (grab task.i_root fs) _ (grab-Halts task.i_root fs)
        (λ held. walk-Halts (length s) s task.i_root dorc held (omega arith)))
      (Halts->>= (grab task.i_pwd fs) _ (grab-Halts task.i_pwd fs)
        (λ held. walk-Halts (length (c ∷ s)) (c ∷ s) task.i_pwd dorc held (omega arith)))
