-- ===== src/Fs/Paths.antt =====
-- Paths: _namei, namei, abspath, sys_chdir and sys_getpwd of fs/minix1/namei.c.
use rdix.Common.{
  ℕ, zero, suc, ◌+◌, ◌-◌, Bool, true, false, ◌&&◌, ◌||◌, not, Option, none, some, List, [], ◌∷◌,
  ◌++◌, Outcome, ok, panic, out_of_fuel, ◌>>=◌, ◌>>◌, assert, ltb, ◌==◌, if◌then◌else◌, length,
  take, drop,
}
use rdix.Text.{strcmp, strncpy, is_separator, strrsep, addsep, next_name}
use rdix.Fs.{Fs, dev_of, desc_of, is_dir, grab, iget, iput}
use rdix.Fs.Entries.{Place, find_entry, get_entry}

-- What the calls read and set of the running task; `pwd` is a text.
pub record Owner : Type 0 where
  pub uid : ℕ
  pub gid : ℕ
  pub umask : ℕ
  pub i_root : ℕ
  pub i_pwd : ℕ
  pub pwd : List ℕ

abbrev pub is_nil : List ℕ → Bool
is_nil [] = true
is_nil (c ∷ s) = false

-- `*ptr` of what `next_name` gives.
abbrev pub or_panic : Option (List ℕ) → Outcome (List ℕ)
or_panic none = panic
or_panic (some s) = ok s

-- One entry further: `node` is given back, and the entry's inode taken.
unfoldable pub enter : ℕ → Option Place → Fs → Outcome (ℕ × Fs)
enter node place fs = do
  dev ← dev_of node fs
  left ← iput node fs
  nr ← get_entry dev place left
  iget dev nr left

-- The `while` of `_namei`, on fuel.
unfoldable pub walk : ℕ → List ℕ → ℕ → Bool → Fs → Outcome (Option ℕ × Fs)
walk k [] node dorc fs = ok (some node, fs)
walk zero (c ∷ s) node dorc fs = out_of_fuel
walk (suc k) (c ∷ s) node dorc fs = do
  desc ← desc_of node fs
  assert (is_dir desc.mode)
  place ← find_entry node (some (c ∷ s)) fs
  ptr ← or_panic (next_name (c ∷ s))
  if is_nil ptr && not dorc then ok (some node, fs) else elim place [
    | none ↦ (do left ← iput node fs; ok (none, left))
    | some e ↦ (do (child, after) ← enter node (some e) fs; walk k ptr child dorc after)
  ]

-- `_namei`; `none` is NULL.
unfoldable pub namei_from : Owner → List ℕ → Bool → Fs → Outcome (Option ℕ × Fs)
namei_from task [] dorc fs = ok (none, fs)
namei_from task (c ∷ s) dorc fs =
    if is_separator c
    then (do held ← grab task.i_root fs; walk (length s) s task.i_root dorc held)
    else (do held ← grab task.i_pwd fs; walk (length (c ∷ s)) (c ∷ s) task.i_pwd dorc held)

unfoldable pub namei : Owner → List ℕ → Fs → Outcome (Option ℕ × Fs)
namei task path fs = namei_from task path true fs

-- What is kept of `oldpath` for `..`; a place before it that is NULL cannot be written.
unfoldable pub parent_path : List ℕ → Outcome (List ℕ)
parent_path oldpath = if length oldpath == 1 then ok oldpath else elim (strrsep oldpath) [
  | none ↦ panic
  | some rest ↦ ok (take (length oldpath - length rest + 1) oldpath)
]

-- `abspath` behind `addsep`: what becomes of `oldpath`. The `strcpy` for `.` takes a character for
-- an address.
unfoldable pub join_path : List ℕ → List ℕ → Outcome (List ℕ)
join_path oldpath [] = panic
join_path oldpath (c ∷ s) =
    if is_separator c
    then ok (c ∷ s)
    else if strcmp (c ∷ s) (b'.' ∷ b'.' ∷ []) 2
    then (do
      old ← parent_path oldpath
      ok (if ltb 3 (length (c ∷ s)) then old ++ drop 3 (c ∷ s) else old))
    else if strcmp (c ∷ s) (b'.' ∷ []) 1
    then (if ltb 2 (length (c ∷ s)) then panic else ok oldpath)
    else ok (oldpath ++ c ∷ s)

unfoldable pub abspath : List ℕ → List ℕ → Outcome (List ℕ)
abspath oldpath path = do newpath ← addsep path; join_path oldpath newpath

-- The result is whether it is 0; otherwise it is EOF.
unfoldable pub sys_chdir : Owner → List ℕ → Fs → Outcome (Bool × Owner × Fs)
sys_chdir task pathname fs = do
  (found, held) ← namei task pathname fs
  elim found [
    | none ↦ ok (false, task, held)
    | some inode ↦ (do
      desc ← desc_of inode held
      if not (is_dir desc.mode) || inode == task.i_pwd
          then (do left ← iput inode held; ok (false, task, left))
          else (do
            pwd ← abspath task.pwd pathname
            left ← iput task.i_pwd held
            ok (true, record task { pwd = pwd; i_pwd = inode }, left)))
  ]

unfoldable pub sys_getpwd : Owner → List ℕ → ℕ → List ℕ
sys_getpwd task buf len = strncpy 0 task.pwd len buf
