-- ===== src/Text.antt =====
-- kernel/string.c, and the path texts of fs/minix1/namei.c. A text is the list of its bytes, none
-- of them 0, without the NUL that ends it; a pointer into a text is what is left from there.
pub mod Copy
pub mod Names
mod Tests
use rdix.Common.{
  ℕ, zero, suc, ◌+◌, ◌-◌, Bool, true, false, ◌&&◌, ◌||◌, not, Option, none, some, List, [], ◌∷◌,
  ◌++◌, Outcome, ok, panic, out_of_fuel, ◌>>=◌, ◌==◌, if◌then◌else◌, length, set, u32, sub32, take,
  drop,
}

-- `strcmp` of the first `count` characters; true on equal ones.
unfoldable pub strcmp : List ℕ → List ℕ → ℕ → Bool
strcmp s t zero = true
strcmp [] [] (suc n) = true
strcmp [] (d ∷ t) (suc n) = false
strcmp (c ∷ s) [] (suc n) = false
strcmp (c ∷ s) (d ∷ t) (suc n) = let rest = strcmp s t n in if c == d then rest else false

-- `strcpy` to the place `at` of a memory: the text and the NUL.
unfoldable pub strcpy : ℕ → List ℕ → List ℕ → List ℕ
strcpy at [] dest = set dest at 0
strcpy at (c ∷ src) dest = strcpy (at + 1) src (set dest at c)

-- `strncpy`; the count goes down before it is tested, so 0 wraps round.
unfoldable pub strncpy : ℕ → List ℕ → ℕ → List ℕ → List ℕ
strncpy at [] count dest = set dest at 0
strncpy at (c ∷ src) count dest =
    let on = strncpy (at + 1) src (sub32 count 1) (set dest at c) in
    if sub32 count 1 == 0 then set dest at 0 else on

-- where a text in memory ends
unfoldable pub string_length : List ℕ → Outcome ℕ
string_length [] = panic
string_length (c ∷ mem) =
    let rest = string_length mem in if c == 0 then ok 0 else (do n ← rest; ok (n + 1))

unfoldable pub strcat : List ℕ → List ℕ → Outcome (List ℕ)
unfolding strcpy string_length
strcat dest src = do n ← string_length dest; ok (strcpy n src dest)

unfoldable pub memset : ℕ → ℕ → ℕ → List ℕ → List ℕ
memset at ch zero mem = mem
memset at ch (suc n) mem = memset (at + 1) ch n (set mem at ch)

-- `memcpy` between two memories.
unfoldable pub memcpy : ℕ → List ℕ → List ℕ → List ℕ
memcpy at [] dest = dest
memcpy at (b ∷ src) dest = memcpy (at + 1) src (set dest at b)

abbrev pub is_separator : ℕ → Bool
is_separator ch = ch == b'/' || ch == b'\\'

-- `_match`: whether the path begins with the name of the entry, up to its end or a separator.
unfoldable pub match_name : List ℕ → List ℕ → Bool
match_name [] [] = true
match_name [] (e ∷ entry) = false
match_name (c ∷ name) [] = is_separator c
match_name (c ∷ name) (e ∷ entry) =
    let rest = match_name name entry in if c == e then rest else false

unfoldable pub vaild_file_name : List ℕ → Bool
vaild_file_name [] = true
vaild_file_name (c ∷ s) = if is_separator c then false else vaild_file_name s

-- The first separator from here on, NULL without one.
unfoldable pub strsep : List ℕ → Option (List ℕ)
strsep [] = none
strsep (c ∷ s) = let rest = strsep s in if is_separator c then some (c ∷ s) else rest

-- The last separator that has something behind it.
unfoldable pub strrsep_from : Option (List ℕ) → List ℕ → Option (List ℕ)
strrsep_from prev [] = prev
strrsep_from prev (c ∷ []) = prev
strrsep_from prev (c ∷ d ∷ s) =
    strrsep_from (if is_separator c then some (c ∷ d ∷ s) else prev) (d ∷ s)

unfoldable pub strrsep : List ℕ → Option (List ℕ)
unfolding strrsep_from
strrsep s = strrsep_from none s

unfoldable pub last_char : List ℕ → Outcome ℕ
last_char [] = panic
last_char (c ∷ []) = ok c
last_char (c ∷ d ∷ s) = last_char (d ∷ s)

-- On an empty text the code reads the byte before it.
unfoldable pub addsep : List ℕ → Outcome (List ℕ)
unfolding last_char
addsep s = do c ← last_char s; ok (if is_separator c then s else s ++ (b'/' ∷ []))

-- `while (*path && !IS_SEPARATOR(*path)) ++path;`
unfoldable pub to_separator : List ℕ → List ℕ
to_separator [] = []
to_separator (c ∷ s) = let rest = to_separator s in if is_separator c then c ∷ s else rest

abbrev pub skip_separator : List ℕ → List ℕ
skip_separator [] = []
skip_separator (c ∷ s) = if is_separator c then s else c ∷ s

abbrev pub tail_of : List ℕ → List ℕ
tail_of [] = []
tail_of (c ∷ s) = s

unfoldable pub next_name : List ℕ → Option (List ℕ)
unfolding to_separator
next_name [] = none
next_name (c ∷ s) = some (tail_of (to_separator (skip_separator (c ∷ s))))

abbrev pub or_null : List ℕ → Option (List ℕ)
or_null [] = none
or_null (c ∷ s) = some (c ∷ s)

-- The `while` of `filename`, on fuel, and what follows it. `next` is not NULL behind a text.
unfoldable pub filename_loop : ℕ → List ℕ → Option (List ℕ) → Outcome (Option (List ℕ))
filename_loop k prev none = panic
filename_loop k prev (some []) = ok (or_null (skip_separator prev))
filename_loop zero prev (some (c ∷ next)) = out_of_fuel
filename_loop (suc k) prev (some (c ∷ next)) = filename_loop k (c ∷ next) (next_name (c ∷ next))

unfoldable pub filename : List ℕ → Outcome (Option (List ℕ))
unfolding filename_loop next_name
filename path = filename_loop (length path) path (next_name path)
