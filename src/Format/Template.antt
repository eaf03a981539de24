-- ===== src/Format/Template.antt =====
-- `vsprintf` of kernel/vsprintf.c. A conversion is %[flags][width][.prec][length]specifier.
use rdix.Common.{
  ℕ, zero, suc, ◌+◌, Bool, true, false, ◌||◌, none, some, List, [], ◌∷◌, ◌++◌, Outcome, ok, panic,
  out_of_fuel, ◌>>=◌, ◌==◌, if◌then◌else◌, length, u8,
}
use rdix.Common.Int.{ℤ, pos, negsuc, ◌+ℤ◌, is_negative, signed32}
use rdix.Format.{Flags, no_flags, is_digit, skip_atoi, number}

-- What a caller passes: 32-bit words, and strings.
pub data Arg : Type 0 where
  word : ℕ → Arg
  text : List ℕ → Arg

-- A conversion as far as its specifier, which stands at the head of `rest`.
pub record Conversion : Type 0 where
  pub flags : Flags
  pub field_width : ℤ
  pub precision : ℤ
  pub rest : List ℕ

-- `*fmt`: the NUL stands behind the text
abbrev pub head_or_nul : List ℕ → ℕ
head_or_nul [] = 0
head_or_nul (c ∷ s) = c

abbrev pub is_flag : ℕ → Bool
is_flag c = c == b'-' || c == b'+' || c == b' ' || c == b'#' || c == b'0'

abbrev pub add_flag : ℕ → Flags → Flags
add_flag c f =
    if c == b'-'
    then record f { left = true }
    else if c == b'+'
    then record f { plus = true }
    else if c == b' '
    then record f { space = true }
    else if c == b'#'
    then record f { special = true }
    else record f { zeropad = true }

unfoldable pub parse_flags : Flags → List ℕ → Flags × List ℕ
parse_flags f [] = (f, [])
parse_flags f (c ∷ s) =
    let on = parse_flags (add_flag c f) s in if is_flag c then on else (f, c ∷ s)

unfoldable pub parse_width : List ℕ → ℤ × List ℕ
unfolding is_digit skip_atoi
parse_width s =
    if is_digit (head_or_nul s)
    then (let (n, s') = skip_atoi 0 s in (signed32 n, s'))
    else (negsuc 0, s)

at_least_zero : ℤ → ℤ
at_least_zero n = if is_negative n then pos 0 else n

unfoldable pub parse_precision : List ℕ → ℤ × List ℕ
unfolding parse_width at_least_zero
parse_precision [] = (negsuc 0, [])
parse_precision (c ∷ s) =
    if c == b'.' then (let (n, s') = parse_width s in (at_least_zero n, s')) else (negsuc 0, c ∷ s)

unfoldable pub skip_qualifier : List ℕ → List ℕ
skip_qualifier [] = []
skip_qualifier (c ∷ s) = if c == b'h' || c == b'l' || c == b'L' then s else c ∷ s

unfoldable pub parse_conversion : List ℕ → Conversion
unfolding parse_flags parse_width parse_precision skip_qualifier
parse_conversion s =
    let (flags, s1) = parse_flags no_flags s in
    let (width, s2) = parse_width s1 in
    let (precision, s3) = parse_precision s2 in
    record { flags = flags; field_width = width; precision = precision; rest = skip_qualifier s3 }

-- `va_arg`; an argument of another kind, or none, is the caller's fault.
unfoldable pub take_word : List Arg → Outcome (ℕ × List Arg)
take_word (word w ∷ args) = ok (w, args)
take_word (text t ∷ args) = panic
take_word [] = panic

unfoldable pub take_text : List Arg → Outcome (List ℕ × List Arg)
take_text (text t ∷ args) = ok (t, args)
take_text (word w ∷ args) = panic
take_text [] = panic

unfoldable pub print_word : ℕ → ℤ → ℤ → Flags → List Arg → Outcome (List ℕ × List Arg)
print_word base width precision flags args = do
  (w, args') ← take_word args
  out ← number w base width precision flags
  elim out [ some s ↦ ok (s, args') | none ↦ panic ]

-- %p: eight digits with zeroes in front, unless a width is given
abbrev pub pointer_width : Conversion → ℤ × Flags
pointer_width v = elim v.field_width [
  | negsuc zero ↦
      (if v.flags.special then pos 8 +ℤ pos 2 else pos 8, record v.flags { zeropad = true })
  | other ↦ (other, v.flags)
]

-- The `switch` on the specifier: what is written, and the arguments that are left.
unfoldable pub convert : Conversion → List Arg → Outcome (List ℕ × List Arg)
convert v args =
    let ch = head_or_nul v.rest in
    let print =
      λ (base : ℕ) (flags : Flags). print_word base v.field_width v.precision flags args in
    if ch == b'd' || ch == b'i'
    then print 10 (record v.flags { sign = true })
    else if ch == b'p'
    then (let (width, flags) = pointer_width v in print_word 16 width v.precision flags args)
    else if ch == b'o'
    then print 8 v.flags
    else if ch == b'x'
    then print 16 (record v.flags { small = true })
    else if ch == b'X'
    then print 16 v.flags
    else if ch == b's'
    then take_text args
    else if ch == b'c'
    then (do (w, args') ← take_word args; ok (u8 w ∷ [], args'))
    else ok ([], args)

-- `++fmt` behind the specifier; at the NUL it leaves the text.
unfoldable pub past_specifier : List ℕ → Outcome (List ℕ)
past_specifier [] = panic
past_specifier (c ∷ s) = ok s

-- The `while` of `vsprintf`, on fuel.
unfoldable pub vsprintf_loop : ℕ → List ℕ → List Arg → Outcome (List ℕ × List Arg)
vsprintf_loop zero fmt args = out_of_fuel
vsprintf_loop (suc k) [] args = ok ([], args)
vsprintf_loop (suc k) (c ∷ s) args = elim (c == b'%') [
  | false ↦ (do (out, args') ← vsprintf_loop k s args; ok (c ∷ out, args'))
  | true ↦ (do
    (out, args1) ← convert (parse_conversion s) args
    s' ← past_specifier (parse_conversion s).rest
    (more, args2) ← vsprintf_loop k s' args1
    ok (out ++ more, args2))
]

-- The text in `buf` and the result `str - buf`.
unfoldable pub vsprintf : List ℕ → List Arg → Outcome (List ℕ × ℕ)
unfolding vsprintf_loop
vsprintf fmt args = do (out, _) ← vsprintf_loop (length fmt + 1) fmt args; ok (out, length out)
