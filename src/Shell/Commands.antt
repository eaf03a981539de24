-- ===== src/Shell/Commands.antt =====
-- execute of buildin/buildin_shell.c finds the built-in command by its whole name.
use rdix.Common.{
  ℕ, zero, suc, ◌<◌, ◌≡◌, ◌↔◌, inl, inr, refl, ap, true, some, List, [], ◌∷◌, arith, Bool-cases,
  some-inj, length, take,
}
use rdix.Text.{strcmp}
use rdix.Text.Names.{strcmp_iff}
use rdix.Shell.{
  Command, test, logo, pwd, clear, exit, ls, cd, cat, mkdir, rmdir, rm, name_of, commands,
  find_command,
}

-- A name shorter than ten characters is compared as a whole.
name-short :
    (line name : List ℕ) (n : ℕ) → length name < n → take n line ≡ take n name → line ≡ name
name-short [] [] (suc n) low e = refl
name-short [] (d ∷ name) (suc n) low e = cc
name-short (c ∷ line) [] (suc n) low e = cc
name-short (c ∷ line) (d ∷ name) (suc n) low e =
    let rest : take n line ≡ take n name = cc in
    let same : c ≡ d = cc in rw (same, name-short line name n (omega arith) rest) refl
name-short line name zero low e = absurd (omega arith)

name_of-short : (c : Command) → length (name_of c) < 10
name_of-short test = omega arith
name_of-short logo = omega arith
name_of-short pwd = omega arith
name_of-short clear = omega arith
name_of-short exit = omega arith
name_of-short ls = omega arith
name_of-short cd = omega arith
name_of-short cat = omega arith
name_of-short mkdir = omega arith
name_of-short rmdir = omega arith
name_of-short rm = omega arith

is_name_iff :
    (line : List ℕ) (c : Command) → (strcmp line (name_of c) 10 ≡ true) ↔ (line ≡ name_of c)
is_name_iff line c = (
  λ e. name-short line (name_of c) 10 (name_of-short c) ((strcmp_iff line (name_of c) 10).0 e),
  λ same. (strcmp_iff line (name_of c) 10).1 (ap (take 10) same),
)

find_command-name :
    (line : List ℕ) (cs : List Command) (c : Command)
    → find_command line cs ≡ some c
    → line ≡ name_of c
unfolding find_command
find_command-name line [] c e = cc
find_command-name line (d ∷ cs) c e = elim (Bool-cases (strcmp line (name_of d) 10)) [
  | inl b ↦
      let same : d ≡ c = some-inj (rw (b, find_command) at e) in
      rw (← same) ((is_name_iff line d).0 b)
  | inr b ↦ find_command-name line cs c (rw (b, find_command) at e)
]

found : (c : Command) → find_command (name_of c) commands ≡ some c
unfolding find_command strcmp
found test = refl
found logo = refl
found pwd = refl
found clear = refl
found exit = refl
found ls = refl
found cd = refl
found cat = refl
found mkdir = refl
found rmdir = refl
found rm = refl

-- A line's first word is taken for a command exactly when it is the command's whole name.
pub find_command_iff :
    (line : List ℕ) (c : Command) → (find_command line commands ≡ some c) ↔ (line ≡ name_of c)
find_command_iff line c = (find_command-name line commands c, λ same. rw same (found c))
