-- ===== src/Format/Tests.antt =====
-- Runs of kernel/vsprintf.c.
use mathlib.Core.Path.{◌≡◌, refl}
use mathlib.Core.Logic.{inr}
use mathlib.Core.Bool.{true}
use mathlib.Core.Option.{some}
use mathlib.Core.List.{List, [], ◌∷◌}
use Prim.Native.Nat.{ℕ}
use native.Mathlib.Omega.{arith}
use rdix.Common.{ok, Halts, ◌>>=◌}
use rdix.Common.Int.{pos, negsuc}
use rdix.Format.{
  layout, adjusted, sign_chars, special_size, special_chars, Flags, no_flags, is_digit, skip_atoi,
  digit, digits_loop, digits, pad, number,
}
use rdix.Format.Number.{Printed}
use rdix.Format.Template.{
  word, parse_flags, parse_width, parse_precision, skip_qualifier, parse_conversion, take_word,
  print_word, convert, past_specifier, vsprintf_loop, vsprintf,
}
use rdix.Format.Total.{vsprintf-Halts}
use rdix.Format.Printing.{hex, with_specifier, before, vsprintf-number}

abbrev hex_flags : Flags
hex_flags = record no_flags { special = true; zeropad = true }

number_test :
    number 255 16 (pos 8) (negsuc 0) hex_flags
    ≡ ok (some (b'0' ∷ b'x' ∷ b'0' ∷ b'0' ∷ b'0' ∷ b'0' ∷ b'F' ∷ b'F' ∷ []))
unfolding number digits digits_loop digit pad layout adjusted sign_chars special_size special_chars
number_test = refl

-- "a=%3d" with 42
vsprintf_test :
    vsprintf (b'a' ∷ b'=' ∷ b'%' ∷ b'3' ∷ b'd' ∷ []) (word 42 ∷ [])
    ≡ ok (b'a' ∷ b'=' ∷ b' ' ∷ b'4' ∷ b'2' ∷ [], 5)
unfolding vsprintf vsprintf_loop convert parse_conversion parse_flags parse_width parse_precision
    skip_qualifier skip_atoi is_digit print_word take_word past_specifier number digits digits_loop
    digit pad layout adjusted sign_chars special_size special_chars
vsprintf_test = refl

vsprintf-Halts_example : Halts (vsprintf (b'%' ∷ b's' ∷ []) (word 1 ∷ []))
vsprintf-Halts_example = vsprintf-Halts (b'%' ∷ b's' ∷ []) (word 1 ∷ [])

-- "%4x!"
abbrev hex_text : List ℕ
hex_text = b'4' ∷ b'x' ∷ b'!' ∷ []

vsprintf-number_example :
    (out : List ℕ) × (vsprintf (b'%' ∷ hex_text) (word 255 ∷ [])
      ≡ (vsprintf (b'!' ∷ []) [] >>= before out))
    × Printed 255 16
        (parse_conversion hex_text).field_width
        (with_specifier hex (parse_conversion hex_text).flags)
        out
unfolding parse_conversion parse_flags parse_width parse_precision skip_qualifier skip_atoi is_digit
vsprintf-number_example =
    vsprintf-number hex hex_text (b'!' ∷ []) 255 [] refl (omega arith) (λ e. inr refl)
