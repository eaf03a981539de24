-- ===== src/Shell.antt =====
-- The shell: readline, cmd_parse, execute and a round of osh_main of buildin/buildin_shell.c. What it
-- reads from the keyboard is a list of characters, and what it asks of the kernel a value of Action.
-- An argument is the text from its start to the NUL that cmd_parse writes behind it.
pub mod Words
pub mod Edits
pub mod Lines
pub mod Commands
mod Tests
use rdix.Common.{
  ℕ, zero, suc, ◌+◌, ◌-◌, Bool, true, false, ◌||◌, not, Option, none, some, List, [], ◌∷◌, Outcome,
  ok, panic, ◌>>=◌, ◌>>◌, assert, ltb, leb, ◌==◌, if◌then◌else◌, length, get_or, get_elem?, set,
}
use rdix.Text.{strcmp}

abbrev pub max_cmd_len : ℕ
max_cmd_len = 256

abbrev pub max_arg_nr : ℕ
max_arg_nr = 16

-- What `readline` leaves: the buffer, what it wrote to the screen, and what is still to be read.
pub record Line : Type 0 where
  pub buf : List ℕ
  pub echo : List ℕ
  pub rest : List ℕ

abbrev pub echoed : ℕ → Line → Line
echoed ch line = record line { echo = ch ∷ line.echo }

-- A write behind the end of the buffer is another's memory.
abbrev pub close_line : ℕ → List ℕ → List ℕ → List ℕ → Outcome Line
close_line idx buf echo rest =
    assert (ltb idx (length buf)) >> ok (record { buf = set buf idx 0; echo = echo; rest = rest })

abbrev pub key_backspace : ℕ
key_backspace = 8

abbrev pub key_tab : ℕ
key_tab = 9

-- `'\n'` or `'\r'`
abbrev pub is_newline : ℕ → Bool
is_newline ch = ch == 10 || ch == 13

-- The `while` of `readline`; at the end of the input `read` returns -1.
unfoldable pub readline : List ℕ → List ℕ → ℕ → ℕ → Outcome Line
readline [] buf idx count = close_line idx buf [] []
readline (ch ∷ input) buf idx count =
    let typed = set buf idx ch in
    let after_back = readline input typed (idx - 1) count in
    let same_place = readline input typed idx count in
    let next_place = readline input typed (idx + 1) count in
    if not (ltb idx count)
    then close_line idx buf [] (ch ∷ input)
    else if is_newline ch
    then close_line idx typed (10 ∷ []) input
    else if ch == key_backspace
    then (if get_or typed 0 0 == key_backspace
        then same_place
        else (do line ← after_back; ok (echoed key_backspace line)))
    else if ch == key_tab
    then same_place
    else (do line ← next_place; ok (echoed ch line))

-- `while (*next == token) next++;`
unfoldable pub skip_token : ℕ → List ℕ → List ℕ
skip_token token [] = []
skip_token token (c ∷ s) = let rest = skip_token token s in if c == token then rest else c ∷ s

-- The argument that begins here, and what stands behind the NUL that ends it.
unfoldable pub cut_word : ℕ → List ℕ → List ℕ × List ℕ
cut_word token [] = ([], [])
cut_word token (c ∷ s) =
    let (word, rest) = cut_word token s in if c == token then ([], s) else (c ∷ word, rest)

-- The outer `while` of `cmd_parse`, with room for `n` more arguments.
unfoldable pub parse_words : ℕ → ℕ → List ℕ → List (List ℕ)
parse_words zero token s = []
parse_words (suc n) token s = elim (skip_token token s) [
  | [] ↦ []
  | c ∷ next ↦ let (word, rest) = cut_word token (c ∷ next) in word ∷ parse_words n token rest
]

-- `argv[argc] = NULL` is written behind `argv` where all places are taken.
unfoldable pub cmd_parse : List ℕ → ℕ → Outcome (List (List ℕ))
unfolding parse_words
cmd_parse cmd token =
    let argv = parse_words max_arg_nr token cmd in assert (ltb (length argv) max_arg_nr) >> ok argv

pub data Command : Type 0 where
  test logo pwd clear exit ls cd cat mkdir rmdir rm : Command

-- What the shell asks of the kernel; an argument that is NULL is `none`.
pub data Action : Type 0 where
  run : Command → Action
  with_path : Command → Option (List ℕ) → Action
  idle : Action
  not_found : List ℕ → Action

abbrev pub name_of : Command → List ℕ
name_of test = b't' ∷ b'e' ∷ b's' ∷ b't' ∷ []
name_of logo = b'l' ∷ b'o' ∷ b'g' ∷ b'o' ∷ []
name_of pwd = b'p' ∷ b'w' ∷ b'd' ∷ []
name_of clear = b'c' ∷ b'l' ∷ b'e' ∷ b'a' ∷ b'r' ∷ []
name_of exit = b'e' ∷ b'x' ∷ b'i' ∷ b't' ∷ []
name_of ls = b'l' ∷ b's' ∷ []
name_of cd = b'c' ∷ b'd' ∷ []
name_of cat = b'c' ∷ b'a' ∷ b't' ∷ []
name_of mkdir = b'm' ∷ b'k' ∷ b'd' ∷ b'i' ∷ b'r' ∷ []
name_of rmdir = b'r' ∷ b'm' ∷ b'd' ∷ b'i' ∷ b'r' ∷ []
name_of rm = b'r' ∷ b'm' ∷ []

-- The tests of `execute`, in their order.
abbrev pub commands : List Command
commands = test ∷ logo ∷ pwd ∷ clear ∷ exit ∷ ls ∷ cd ∷ cat ∷ mkdir ∷ rmdir ∷ rm ∷ []

unfoldable pub find_command : List ℕ → List Command → Option Command
find_command line [] = none
find_command line (c ∷ cs) =
    let rest = find_command line cs in if strcmp line (name_of c) 10 then some c else rest

-- The built-in function: `mkdir`, `rmdir` and `rm` want an argument; `cd` and `cat` take `argv[1]`
-- as it is.
unfoldable pub builtin : Command → Option (List ℕ) → Action
builtin cd arg = with_path cd arg
builtin cat arg = with_path cat arg
builtin mkdir (some arg) = with_path mkdir (some arg)
builtin rmdir (some arg) = with_path rmdir (some arg)
builtin rm (some arg) = with_path rm (some arg)
builtin mkdir none = idle
builtin rmdir none = idle
builtin rm none = idle
builtin test arg = run test
builtin logo arg = run logo
builtin pwd arg = run pwd
builtin clear arg = run clear
builtin exit arg = run exit
builtin ls arg = run ls

abbrev pub run_command : List ℕ → Option (List ℕ) → Option Command → Action
run_command line arg none = not_found line
run_command line arg (some c) = builtin c arg

-- Without an argument `argv[0]` is NULL, and its text is read at address 0.
unfoldable pub execute : List (List ℕ) → Outcome Action
execute [] = panic
execute (line ∷ args) = ok (run_command line (get_elem? args 0) (find_command line commands))

-- A round of `osh_main` on the text that `readline` leaves.
unfoldable pub osh_round : List ℕ → Outcome Action
osh_round [] = ok idle
osh_round (c ∷ s) = do
  argv ← cmd_parse (c ∷ s) b' '
  if leb max_arg_nr (length argv) then ok idle else execute argv
