-- ===== src/Fs/Removal.antt =====
-- sys_rmdir of fs/minix1/namei.c: the test of the name of the directory is the wrong way round.
use rdix.Common.{
  ℕ, ◌≡◌, ◌⊎◌, inl, inr, refl, sym, Bool, false, Option, none, some, List, [], ◌∷◌, Outcome, ok,
  panic, out_of_fuel, ◌>>=◌, Halts, >>=-inv, assert-inv, ok-inj,
}
use rdix.Text.{filename, filename_loop, next_name}
use rdix.Text.Names.{filename_total}
use rdix.Fs.{Fs, desc_of, is_dir, iput}
use rdix.Fs.Entries.{Place, find_entry}
use rdix.Fs.Paths.{Owner, namei_from}
use rdix.Fs.Calls.{remove_entry, sys_rmdir}
use rdix.Fs.Live.{SameDisk}
use rdix.Fs.Frame.{same_disk, SameDisk-trans, iput-SameDisk, namei_from-SameDisk}
use rdix.Fs.Total.{find_entry-Halts, iput-Halts, namei_from-Halts}

abbrev pub Comes {ℓ} : {A : Type ℓ} → Outcome A → Type ℓ
Comes {A} m = (m ≡ panic) ⊎ ((a : A) × (m ≡ ok a))

pub Halts-cases {ℓ} : {A : Type ℓ} (m : Outcome A) → Halts m → Comes m
Halts-cases (ok a) h = inr (a, refl)
Halts-cases panic h = inl refl
Halts-cases out_of_fuel h = elim h [ ]

-- The kernel stops, or the call returns EOF and leaves the disk as it was.
abbrev pub Idle : Fs → Outcome (Bool × Fs) → Type 0
Idle fs m = (m ≡ panic) ⊎ ((after : Fs) × (m ≡ ok (false, after)) × SameDisk fs after)

find_entry-null :
    (dir : ℕ) (fs : Fs) (place : Option Place) → find_entry dir none fs ≡ ok place → place ≡ none
unfolding find_entry
find_entry-null dir fs place e =
    let (desc, at, rest) = >>=-inv (desc_of dir fs) _ e in
    let (is, last) = assert-inv (is_dir desc.mode) _ rest in sym (ok-inj last)

remove_entry-Idle : (task : Owner) (dir : ℕ) (fs : Fs) → Idle fs (remove_entry task dir none fs)
unfolding remove_entry
remove_entry-Idle task dir fs =
    elim (Halts-cases (find_entry dir none fs) (find_entry-Halts dir none fs)) [
      | inl stopped ↦ inl (rw stopped refl)
      | inr (place, found) ↦
          inr (fs, rw (found, find_entry-null dir fs place found) refl, same_disk fs)
    ]

filename-Comes : (path : List ℕ) → Comes (filename path)
unfolding filename filename_loop next_name
filename-Comes [] = inl refl
filename-Comes (c ∷ s) = inr (filename_total c s)

-- sys_rmdir removes nothing: whatever the path and the directories are, the kernel stops, or the
-- call returns EOF and the descriptors, the blocks and the maps are as they were.
pub sys_rmdir-Idle : (task : Owner) (path : List ℕ) (fs : Fs) → Idle fs (sys_rmdir task path fs)
unfolding sys_rmdir
sys_rmdir-Idle task path fs = elim (filename-Comes path) [
  | inl stopped ↦ inl (rw stopped refl)
  | inr (child, named) ↦
      elim (Halts-cases (namei_from task path false fs) (namei_from-Halts task path false fs)) [
        | inl stopped ↦ inl (rw (named, stopped) refl)
        | inr ((found, held), walked) ↦
            let same = namei_from-SameDisk task path false fs held walked in
            rw (named, walked) (at_end task found child fs held same)
      ]
]
  where
    put_back :
        (dir : ℕ) (text : List ℕ) (fs held : Fs)
        → SameDisk fs held
        → Idle fs (do left ← iput dir held; ok (false, left))
    put_back dir text fs held same = elim (Halts-cases (iput dir held) (iput-Halts dir held)) [
      | inl stopped ↦ inl (rw stopped refl)
      | inr (left, put) ↦
          inr
            (left, rw put refl, SameDisk-trans fs held left same (iput-SameDisk dir held left put))
    ]

    from_held :
        (fs held : Fs) (m : Outcome (Bool × Fs)) → SameDisk fs held → Idle held m → Idle fs m
    from_held fs held m same (inl stopped) = inl stopped
    from_held fs held m same (inr (after, run, rest)) =
        inr (after, run, SameDisk-trans fs held after same rest)

    at_end :
        (task : Owner) (found : Option ℕ) (child : Option (List ℕ)) (fs held : Fs)
        → SameDisk fs held
        → Idle fs (elim found [
          | none ↦ ok (false, held)
          | some dir ↦ elim child [
            | some text ↦ (do left ← iput dir held; ok (false, left))
            | none ↦ remove_entry task dir none held
          ]
        ])
    at_end task none child fs held same = inr (held, refl, same)
    at_end task (some dir) (some text) fs held same = put_back dir text fs held same
    at_end task (some dir) none fs held same =
        from_held fs held (remove_entry task dir none held) same (remove_entry-Idle task dir held)
