-- ===== src/Fs/Open.antt =====
-- The open files of a task: sys_open, sys_create, sys_close and sys_lseek of fs/minix1/file.c. The
-- memory of a `file_t` comes from malloc (Heap).
use Prim.Native.Nat.{bit_or}
use rdix.Common.{
  ℕ, ◌+◌, ◌-◌, ◌^◌, not, Option, none, some, List, [], ◌∷◌, Outcome, ok, panic, ◌>>=◌, ◌>>◌, assert,
  ltb, leb, if◌then◌else◌, get_elem?, set, drop, u32,
}
use rdix.Common.Int.{ℤ, pos, negsuc, ◌+ℤ◌, is_negative, signed32}
use rdix.Fs.{DInode, Fs, desc_of, iput}
use rdix.Fs.Paths.{Owner}
use rdix.Fs.Names.{has, o_creat, o_trunc, inode_open}

abbrev pub o_append : ℕ
o_append = 1024

-- `file_t`, without the count of references, which is not set.
pub record OpenFile : Type 0 where
  pub inode : ℕ
  pub offset : ℤ
  pub flags : ℕ
  pub mode : ℕ

-- `task->files`
abbrev pub Files : Type 0
Files = List (Option OpenFile)

-- The `for` of `sys_open`, from `fd` on.
unfoldable pub free_fd : ℕ → Files → Option ℕ
free_fd fd [] = none
free_fd fd (none ∷ files) = some fd
free_fd fd (some file ∷ files) = free_fd (fd + 1) files

abbrev pub opened : ℕ → ℕ → DInode → OpenFile
opened inode flags desc = record {
  inode = inode;
  offset = if has o_append flags then signed32 desc.size else pos 0;
  flags = flags;
  mode = desc.mode;
}

-- The file gets a descriptor, or its inode is given back.
unfoldable pub place_file : ℕ → ℕ → Files → Fs → Outcome (Option ℕ × Files × Fs)
place_file inode flags files fs = elim (free_fd 3 (drop 3 files)) [
  | none ↦ (do left ← iput inode fs; ok (none, files, left))
  | some fd ↦ (do
    desc ← desc_of inode fs
    ok (some fd, set files fd (some (opened inode flags desc)), fs))
]

-- EOF is `none`.
unfoldable pub sys_open : Owner → List ℕ → ℕ → ℕ → Files → Fs → Outcome (Option ℕ × Files × Fs)
sys_open task filename flags mode files fs = do
  (found, got) ← inode_open task filename flags mode fs
  elim found [ none ↦ ok (none, files, got) | some inode ↦ place_file inode flags files got ]

unfoldable pub sys_create : Owner → List ℕ → ℕ → Files → Fs → Outcome (Option ℕ × Files × Fs)
sys_create task filename mode files fs =
    sys_open task filename (bit_or o_creat o_trunc) mode files fs

-- `task->files[fd]`
unfoldable pub file_at : ℕ → Files → Outcome (Option OpenFile)
file_at fd files = elim (get_elem? files fd) [ none ↦ panic | some file ↦ ok file ]

unfoldable pub sys_close : ℕ → Files → Fs → Outcome (Files × Fs)
sys_close fd files fs = do
  assert (ltb 2 fd)
  file ← file_at fd files
  elim file [
    | none ↦ ok (files, fs)
    | some f ↦ (do left ← iput f.inode fs; ok (set files fd none, left))
  ]

pub data Whence : Type 0 where
  seek_set seek_cur seek_end undefined : Whence

-- the 32-bit pattern of an `int`
abbrev pub pattern : ℤ → ℕ
pattern (pos n) = u32 n
pattern (negsuc n) = u32 (2 ^ 32 - n - 1)

-- The offset that `sys_lseek` sets. The size is unsigned, and so is the sum that SEEK_END tests.
unfoldable pub seek_to : Whence → ℤ → ℤ → ℕ → Outcome ℤ
seek_to seek_set old offset size = assert (not (is_negative offset)) >> ok offset
seek_to seek_cur old offset size = assert (not (is_negative (old +ℤ offset))) >> ok (old +ℤ offset)
seek_to seek_end old offset size =
    assert (leb 0 (u32 (size + pattern offset))) >> ok (signed32 (u32 (size + pattern offset)))
seek_to undefined old offset size = panic

unfoldable pub sys_lseek : ℕ → ℤ → Whence → Files → Fs → Outcome (ℤ × Files)
sys_lseek fd offset whence files fs = do
  file ← file_at fd files
  elim file [
    | none ↦ panic
    | some f ↦ (do
      desc ← desc_of f.inode fs
      to ← seek_to whence f.offset offset desc.size
      ok (to, set files fd (some (record f { offset = to }))))
  ]
