-- ===== src/Fs/Descriptors.antt =====
-- File descriptors: sys_open and sys_close of fs/minix1/file.c.
use rdix.Common.{ℕ, ◌≤◌, ◌<◌, ◌≡◌, none, some, ok, ◌>>=◌, get_elem?, set}
use rdix.Fs.{DInode, Fs, iput}
use rdix.Fs.Open.{OpenFile, Files, opened, sys_close}

abbrev pub Busy : ℕ → Files → Type 0
Busy j files = (f : OpenFile) × (get_elem? files j ≡ some (some f))

-- What `sys_open` leaves, and what `sys_close` makes of it.
pub record Opened (inode flags fd : ℕ) (desc : DInode) (files : Files) (got : Fs) : Type 0 where
  pub above : 3 ≤ fd
  pub free : get_elem? files fd ≡ some none
  pub lowest : (i : ℕ) → 3 ≤ i → i < fd → Busy i files
  pub closes :
      sys_close fd (set files fd (some (opened inode flags desc))) got
      ≡ (iput inode got >>= λ left. ok (files, left))
