-- ===== src/Fs/Frame.antt =====
-- What the calls on paths leave as it was: walking a path takes and gives back inodes, and changes
-- nothing on the disk. sys_rmdir does nothing else.
use rdix.Common.{
  ℕ, zero, suc, ◌≡◌, ◌∙◌, inl, inr, refl, Bool, ◌&&◌, not, Option, some, List, [], ◌∷◌, ok, >>=-inv,
  assert-inv, ok-inj, Bool-cases, Option-cases, ltb, leb, length,
}
use rdix.Text.{is_separator, next_name}
use rdix.Fs.{Fs, find_inode, get_free_inode, inode_at, dev_of, desc_of, is_dir, grab, iget, iput}
use rdix.Fs.Entries.{Place, find_entry, get_entry}
use rdix.Fs.Paths.{Owner, is_nil, or_panic, enter, walk, namei_from}
use rdix.Fs.Live.{SameDisk}

abbrev pub same_disk : (fs : Fs) → SameDisk fs fs
same_disk fs = (refl, refl, refl)

pub SameDisk-trans : (a b c : Fs) → SameDisk a b → SameDisk b c → SameDisk a c
SameDisk-trans a b c (d, e, f) (g, h, i) = (d ∙ g, e ∙ h, f ∙ i)

pub after-eq {ℓ} : {A : Type ℓ} {a b : A × Fs} → ok a ≡ ok b → a.1 ≡ b.1
after-eq e = cc

pub grab-SameDisk : (i : ℕ) (fs after : Fs) → grab i fs ≡ ok after → SameDisk fs after
unfolding grab
grab-SameDisk i fs after e =
    let (inode, at, rest) = >>=-inv (inode_at i fs) _ e in rw (← ok-inj rest) (same_disk fs)

pub iput-SameDisk : (i : ℕ) (fs after : Fs) → iput i fs ≡ ok after → SameDisk fs after
unfolding iput
iput-SameDisk i fs after e =
    let (inode, at, rest) = >>=-inv (inode_at i fs) _ e in
    let (has, last) = assert-inv (ltb 0 inode.count) _ rest in
    elim (Bool-cases (ltb 1 inode.count)) [
      | inl b ↦ rw (← ok-inj (rw b at last)) (same_disk fs)
      | inr b ↦ rw (← ok-inj (rw b at last)) (same_disk fs)
    ]

pub iget-SameDisk :
    (dev nr i : ℕ) (fs after : Fs) → iget dev nr fs ≡ ok (i, after) → SameDisk fs after
unfolding iget
iget-SameDisk dev nr i fs after e =
    let (positive, found) = assert-inv (ltb 0 nr) _ e in
    elim (Option-cases (find_inode dev nr 0 fs.inode_table)) [
      | inr (j, at) ↦
          let (got, run, last) = >>=-inv (grab j fs) _ (rw at at found) in
          let same : got ≡ after = after-eq (last) in rw (← same) (grab-SameDisk j fs got run)
      | inl absent ↦
          let (exists, there) = assert-inv (leb nr (fs.supers dev).inodes) _ (rw absent at found) in
          let (j, run, last) = >>=-inv (get_free_inode 0 fs.inode_table) _ there in
          rw (← after-eq (last)) (same_disk fs)
    ]

enter-SameDisk :
    (node child : ℕ) (place : Option Place) (fs after : Fs)
    → enter node place fs ≡ ok (child, after)
    → SameDisk fs after
unfolding enter
enter-SameDisk node child place fs after e =
    let (dev, at, rest) = >>=-inv (dev_of node fs) _ e in
    let (left, put, rest1) = >>=-inv (iput node fs) _ rest in
    let (nr, read, got) = >>=-inv (get_entry dev place left) _ rest1 in
    SameDisk-trans fs left after (iput-SameDisk node fs left put)
      (iget-SameDisk dev nr child left after got)

walk-SameDisk :
    (k : ℕ) (path : List ℕ) (node : ℕ) (dorc : Bool) (fs after : Fs) {found : Option ℕ}
    → walk k path node dorc fs ≡ ok (found, after)
    → SameDisk fs after
unfolding walk
walk-SameDisk zero [] node dorc fs after e = rw (← after-eq (e)) (same_disk fs)
walk-SameDisk (suc k) [] node dorc fs after e = rw (← after-eq (e)) (same_disk fs)
walk-SameDisk zero (c ∷ s) node dorc fs after e = cc
walk-SameDisk (suc k) (c ∷ s) node dorc fs after e =
    let (desc, at, rest) = >>=-inv (desc_of node fs) _ e in
    let (dir, rest1) = assert-inv (is_dir desc.mode) _ rest in
    let (place, search, rest2) = >>=-inv (find_entry node (some (c ∷ s)) fs) _ rest1 in
    let (ptr, next, rest3) = >>=-inv (or_panic (next_name (c ∷ s))) _ rest2 in
    elim (Bool-cases (is_nil ptr && not dorc)) [
      | inl b ↦ rw (← after-eq ((rw b at rest3))) (same_disk fs)
      | inr b ↦ elim (Option-cases place) [
        | inl absent ↦
            let (left, put, last) = >>=-inv (iput node fs) _ (rw (b, absent) at rest3) in
            rw (← after-eq (last)) (iput-SameDisk node fs left put)
        | inr (p, is) ↦
            let ((child, got), into, last) =
              >>=-inv (enter node (some p) fs) _ (rw (b, is) at rest3) in
            SameDisk-trans fs got after (enter-SameDisk node child (some p) fs got into)
              (walk-SameDisk k ptr child dorc got after last)
      ]
    ]

pub namei_from-SameDisk :
    (task : Owner) (path : List ℕ) (dorc : Bool) (fs after : Fs) {found : Option ℕ}
    → namei_from task path dorc fs ≡ ok (found, after)
    → SameDisk fs after
unfolding namei_from
namei_from-SameDisk task [] dorc fs after e = rw (← after-eq e) (same_disk fs)
namei_from-SameDisk task (c ∷ s) dorc fs after e = elim (Bool-cases (is_separator c)) [
  | inl b ↦
      let (held, run, last) = >>=-inv (grab task.i_root fs) _ (rw b at e) in
      SameDisk-trans fs held after (grab-SameDisk task.i_root fs held run)
        (walk-SameDisk (length s) s task.i_root dorc held after last)
  | inr b ↦
      let (held, run, last) = >>=-inv (grab task.i_pwd fs) _ (rw b at e) in
      SameDisk-trans fs held after (grab-SameDisk task.i_pwd fs held run)
        (walk-SameDisk (length (c ∷ s)) (c ∷ s) task.i_pwd dorc held after last)
]
