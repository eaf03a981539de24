-- ===== src/Console/Colors.antt =====
-- `_color_proc` of kernel/console.c: the colour sequences ESC [ general ; fore ; back ] of a text. A
-- text is the list of its characters, less the NUL behind them. A read behind the NUL is a fault.
use Prim.Native.Nat.{bit_and, bit_or}
use rdix.Common.{
  ℕ, zero, suc, ◌-◌, ◌*◌, Option, none, some, List, [], ◌∷◌, Outcome, ok, panic, ◌>>=◌, leb, ◌==◌,
  ◌&&◌, if◌then◌else◌, u8, get_elem?,
}
use rdix.Common.Bytes.{set_bit, clear_bit}
use rdix.Format.{skip_atoi}
use rdix.Console.{word_type_default}

abbrev found_after : ℕ → Option (List ℕ × List ℕ) → Option (List ℕ × List ℕ)
found_after ch none = none
found_after ch (some (arguments, behind)) = some (ch ∷ arguments, behind)

-- The loop that copies the arguments to `colorfmt`, `n` characters at most: the characters before a
-- `]` and the text behind it, or `none` where no `]` follows. The NUL behind eight of them would be
-- written outside of `colorfmt`.
unfoldable pub copy_arguments : ℕ → List ℕ → Outcome (Option (List ℕ × List ℕ))
copy_arguments zero [] = ok none
copy_arguments zero (ch ∷ text) = if ch == b']' then panic else ok none
copy_arguments (suc n) [] = panic
copy_arguments (suc n) (ch ∷ text) =
    let rest = copy_arguments n text in
    if ch == b']' then ok (some ([], text)) else (do found ← rest; ok (found_after ch found))

-- the `switch` on the general code
unfoldable pub general_color : ℕ → ℕ → Option ℕ
general_color code color =
    if code == 0
    then some word_type_default
    else if code == 1
    then some (set_bit color 3)
    else if code == 2
    then some (clear_bit color 3)
    else if code == 5
    then some (set_bit color 7)
    else none

-- COLOR_TYPE_FORE_BLACK to COLOR_TYPE_FORE_WHITE
abbrev pub color_types : List ℕ
color_types = 0 ∷ 4 ∷ 2 ∷ 6 ∷ 1 ∷ 5 ∷ 3 ∷ 7 ∷ []

-- The `switch` on a colour code: the bits of the colour with `first` as black.
unfoldable pub color_type : ℕ → ℕ → Option ℕ
color_type first code = if leb first code then get_elem? color_types (code - first) else none

-- What `_color_proc` returns: the text to go on with.
abbrev pub Colored : Type 0
Colored = ℕ × List ℕ

-- From the colour of the background on; `fmt` is the text at the sequence, `str` that behind it.
unfoldable pub back_part : ℕ → List ℕ → List ℕ → List ℕ → Colored
unfolding color_type
back_part color fmt str arguments =
    let (code, _) = skip_atoi 0 arguments in
    let cleared = bit_and color 143 in
    elim (color_type 40 (u8 code)) [
      | none ↦ (cleared, fmt)
      | some bits ↦ (bit_or cleared (bits * 16), str)
    ]

-- From the colour of the characters on; `pre_color` is that before the sequence.
unfoldable pub fore_part : ℕ → ℕ → List ℕ → List ℕ → List ℕ → Colored
unfolding color_type back_part
fore_part pre_color color fmt str arguments =
    let (code, behind) = skip_atoi 0 arguments in
    let cleared = bit_and color 248 in
    elim (color_type 30 (u8 code)) [
      | none ↦ (cleared, fmt)
      | some bits ↦
          let colored = bit_or cleared bits in
          elim behind [
            | [] ↦ (colored, str)
            | (ch ∷ more) ↦ if ch == b';' then back_part colored fmt str more else (pre_color, fmt)
          ]
    ]

unfoldable pub general_part : ℕ → List ℕ → List ℕ → List ℕ → Colored
unfolding general_color fore_part
general_part color fmt str arguments =
    let (code, behind) = skip_atoi 0 arguments in
    elim (general_color (u8 code) color) [
      | none ↦ (color, fmt)
      | some colored ↦ elim behind [
        | [] ↦ (colored, str)
        | (ch ∷ more) ↦ if ch == b';' then fore_part color colored fmt str more else (color, fmt)
      ]
    ]

-- The colour and the text to go on with, of a text that starts with ESC and `[`.
unfoldable pub color_sequence : ℕ → List ℕ → List ℕ → Outcome Colored
unfolding copy_arguments general_part
color_sequence color fmt text = do
  found ← copy_arguments 8 text
  ok (elim found [
    | none ↦ (color, fmt)
    | some (arguments, str) ↦ general_part color fmt str arguments
  ])

-- `*str == '\033' && *(str + 1) == '['`, with the text behind the two characters
unfoldable pub at_sequence : List ℕ → Option (List ℕ)
at_sequence [] = none
at_sequence (ch ∷ []) = none
at_sequence (ch ∷ next ∷ text) = if ch == 27 && (next == b'[') then some text else none

unfoldable pub color_proc : ℕ → List ℕ → Outcome Colored
unfolding color_sequence at_sequence
color_proc color fmt = elim (at_sequence fmt) [
  | none ↦ ok (color, fmt)
  | some text ↦ color_sequence color fmt text
]
