-- ===== src/Console/Strings.antt =====
-- `console_put_string` of kernel/console.c: a text with its colour sequences. A text is the list of
-- its characters, less the NUL behind them.
use rdix.Common.{
  ℕ, zero, suc, ◌+◌, ◌≤◌, ◌≡◌, ◌≢◌, refl, ap, inl, inr, false, none, some, List, [], ◌∷◌, Outcome,
  ok, panic, out_of_fuel, ◌>>=◌, ◌==◌, Bool-cases, ==→eq, arith, take, length,
}
use rdix.Format.{skip_atoi, is_digit}
use rdix.Console.{Screen, word_type_default, console_put_char}
use rdix.Console.Colors.{
  Colored, color_proc, color_sequence, at_sequence, copy_arguments, general_part, general_color,
}
use rdix.Console.Scrolling.{OnScreen}
use rdix.Console.Writing.{console_put_char-OnScreen}

-- The inner `while`, on fuel.
unfoldable pub skip_colors : ℕ → ℕ → List ℕ → Outcome Colored
unfolding color_proc at_sequence
skip_colors zero color text = out_of_fuel
skip_colors (suc f) color text = elim (at_sequence text) [
  | none ↦ ok (color, text)
  | some _ ↦ do (color', text') ← color_proc color text; skip_colors f color' text'
]

-- The outer `while`, on the same fuel. A text that ends behind a colour sequence gives its NUL to
-- `console_put_char`, and the next round reads behind it.
unfoldable pub string_loop : ℕ → List ℕ → ℕ → Screen → Outcome Screen
unfolding skip_colors
string_loop zero str count c = out_of_fuel
string_loop (suc f) [] count c = ok c
string_loop (suc f) (ch ∷ str) zero c = ok c
string_loop (suc f) (ch ∷ str) (suc count) c = do
  (color, text) ← skip_colors f c.color (ch ∷ str)
  elim text [
    | [] ↦ panic
    | (next ∷ more) ↦
        ◌>>=◌ (console_put_char next (record c { color = color }))
          (λ c'. string_loop f more count c')
  ]

-- `count` is the number of its 32 bits.
unfoldable pub console_put_string : ℕ → List ℕ → ℕ → Screen → Outcome Screen
unfolding string_loop
console_put_string fuel str count c = do
  c' ← string_loop fuel str count c
  ok (record c' { color = word_type_default })

-- The characters of a text one after the other, in the colour of the screen.
unfoldable pub put_all : List ℕ → Screen → Outcome Screen
put_all [] c = ok c
put_all (ch ∷ str) c = do c' ← console_put_char ch c; put_all str c'

-- No character of the text is an ESC or a backspace.
unfoldable pub Plain : List ℕ → Type 0
Plain [] = Unit {0}
Plain (ch ∷ str) = (ch ≢ 27) × (ch ≢ 8) × Plain str

at_sequence-plain : (ch : ℕ) (str : List ℕ) → ch ≢ 27 → at_sequence (ch ∷ str) ≡ none
unfolding at_sequence
at_sequence-plain ch [] h = refl
at_sequence-plain ch (next ∷ str) h = elim (Bool-cases (ch == 27)) [
  | inl b ↦ absurd (h (==→eq ch 27 b))
  | inr b ↦ rw b refl
]

skip_colors-plain :
    (f color ch : ℕ) (str : List ℕ)
    → ch ≢ 27
    → skip_colors (suc f) color (ch ∷ str) ≡ ok (color, ch ∷ str)
unfolding skip_colors
skip_colors-plain f color ch str no_esc = rw (at_sequence-plain ch str no_esc, skip_colors) refl

string_loop-Plain :
    (fuel : ℕ) (str : List ℕ) (count : ℕ) (c : Screen)
    → Plain str
    → OnScreen c
    → length str + 2 ≤ fuel
    → (c' : Screen) × (put_all (take count str) c ≡ ok c')
      × (string_loop fuel str count c ≡ ok c')
      × OnScreen c'
unfolding string_loop put_all Plain
string_loop-Plain zero str count c plain s enough = absurd (omega arith)
string_loop-Plain (suc f) [] zero c plain s enough = (c, refl, refl, s)
string_loop-Plain (suc f) [] (suc count) c plain s enough = (c, refl, refl, s)
string_loop-Plain (suc f) (ch ∷ str) zero c plain s enough = (c, refl, refl, s)
string_loop-Plain (suc zero) (ch ∷ str) (suc count) c plain s enough = absurd (omega arith)
string_loop-Plain (suc (suc f)) (ch ∷ str) (suc count) c (no_esc, no_back, plain) s enough =
    let (c1, run, s1) = console_put_char-OnScreen ch c s (λ e. absurd (no_back e)) in
    let (c2, all, loop, s2) = string_loop-Plain (suc f) str count c1 plain s1 (omega arith) in
    (c2, rw run all, rw (skip_colors-plain f c.color ch str no_esc, run, string_loop) loop, s2)

-- With the cursor on the screen and fuel for the text console_put_string writes the first `count`
-- characters of a text without ESC and backspace in order, keeps the cursor on the screen and
-- leaves the default colour.
pub console_put_string-Plain :
    (fuel : ℕ) (str : List ℕ) (count : ℕ) (c : Screen)
    → Plain str
    → OnScreen c
    → length str + 2 ≤ fuel
    → (c' : Screen) × (put_all (take count str) c ≡ ok c')
      × (console_put_string fuel str count c ≡ ok (record c' { color = word_type_default }))
      × OnScreen c'
unfolding console_put_string
console_put_string-Plain fuel str count c plain s enough =
    let (c', all, loop, s') = string_loop-Plain fuel str count c plain s enough in
    (c', all, rw loop refl, s')

-- the text ESC [ ch ] rest
abbrev pub sequence : ℕ → List ℕ → List ℕ
sequence ch rest = 27 ∷ b'[' ∷ ch ∷ b']' ∷ rest

copy_arguments-one :
    (ch : ℕ) (rest : List ℕ)
    → ch ≢ b']'
    → copy_arguments 8 (ch ∷ b']' ∷ rest) ≡ ok (some (ch ∷ [], rest))
unfolding copy_arguments
copy_arguments-one ch rest no_end =
    let e1 : (ch == b']') ≡ false = ground (arith, no_end) in rw e1 refl

skip_atoi-none : (ch : ℕ) → is_digit ch ≡ false → skip_atoi 0 (ch ∷ []) ≡ (0, ch ∷ [])
unfolding skip_atoi
skip_atoi-none ch no_digit = rw no_digit refl

general_part-refused :
    (ch : ℕ) (fmt str : List ℕ) (color : ℕ)
    → is_digit ch ≡ false
    → ch ≢ b';'
    → general_part color fmt str (ch ∷ []) ≡ (color, fmt)
unfolding general_part general_color
general_part-refused ch fmt str color no_digit no_semi =
    let e2 : (ch == b';') ≡ false = ground (arith, no_semi) in
    let e0 : (skip_atoi 0 (ch ∷ [])).0 ≡ 0 = ap (λ p. p.0) (skip_atoi-none ch no_digit) in
    let e1 : (skip_atoi 0 (ch ∷ [])).1 ≡ ch ∷ [] = ap (λ p. p.1) (skip_atoi-none ch no_digit) in
    rw (e0, e1, general_part, e2) refl

color_proc-refused :
    (ch : ℕ) (rest : List ℕ) (color : ℕ)
    → is_digit ch ≡ false
    → ch ≢ b';'
    → ch ≢ b']'
    → color_proc color (sequence ch rest) ≡ ok (color, sequence ch rest)
unfolding color_proc at_sequence color_sequence
color_proc-refused ch rest color no_digit no_semi no_end =
    rw
      (
        copy_arguments-one ch rest no_end,
        general_part-refused ch (sequence ch rest) rest color no_digit no_semi,
      )
      refl

skip_colors-refused :
    (fuel : ℕ) (ch : ℕ) (rest : List ℕ) (color : ℕ)
    → is_digit ch ≡ false
    → ch ≢ b';'
    → ch ≢ b']'
    → skip_colors fuel color (sequence ch rest) ≡ out_of_fuel
unfolding skip_colors at_sequence
skip_colors-refused zero ch rest color no_digit no_semi no_end = refl
skip_colors-refused (suc f) ch rest color no_digit no_semi no_end =
    rw (color_proc-refused ch rest color no_digit no_semi no_end)
      (skip_colors-refused f ch rest color no_digit no_semi no_end)

-- A text that starts with ESC, `[`, a character that is neither a digit nor `;` nor `]`, and `]`
-- keeps console_put_string in its loop, whatever fuel it is given.
pub console_put_string-stuck :
    (fuel : ℕ) (ch : ℕ) (rest : List ℕ) (count : ℕ) (c : Screen)
    → is_digit ch ≡ false
    → ch ≢ b';'
    → ch ≢ b']'
    → console_put_string fuel (sequence ch rest) (suc count) c ≡ out_of_fuel
unfolding console_put_string string_loop
console_put_string-stuck zero ch rest count c no_digit no_semi no_end = refl
console_put_string-stuck (suc f) ch rest count c no_digit no_semi no_end =
    rw (skip_colors-refused f ch rest c.color no_digit no_semi no_end) refl
