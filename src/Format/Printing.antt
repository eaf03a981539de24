-- ===== src/Format/Printing.antt =====
-- What `vsprintf` writes for plain text and for the conversions of numbers.
use rdix.Common.{
  ℕ, zero, suc, ◌+◌, ◌^◌, ◌≤◌, ◌<◌, ◌≡◌, ◌⊎◌, ◌∙◌, refl, sym, ap, inl, inr, Bool, true, ◌&&◌, not,
  some, List, [], ◌∷◌, ◌++◌, arith, Outcome, ok, panic, out_of_fuel, ◌>>=◌, ◌==◌, Bool-cases,
  length, length-append,
}
use rdix.Common.Int.{ℤ}
use rdix.Format.{Flags, number}
use rdix.Format.Number.{Printed, number-Printed}
use rdix.Format.Template.{
  Arg, word, Conversion, parse_conversion, take_word, print_word, convert, past_specifier,
  vsprintf_loop, vsprintf,
}
use rdix.Common.{>>=-assoc, >>=-ok}
use rdix.Format.Strings.{loop-fuel}
use rdix.Format.Strings.{past-lt, loop-percent, loop-plain}

-- Characters other than % come out as they are.
abbrev pub no_percent : List ℕ → Bool
no_percent [] = true
no_percent (c ∷ s) = not (c == b'%') && no_percent s

-- a text in front of what the loop gives, and of what vsprintf gives
abbrev in_front : List ℕ → List ℕ × List Arg → Outcome (List ℕ × List Arg)
in_front pre m = ok (pre ++ m.0, m.1)

abbrev pub before : List ℕ → List ℕ × ℕ → Outcome (List ℕ × ℕ)
before pre m = ok (pre ++ m.0, length pre + m.1)

abbrev measured : List ℕ × List Arg → Outcome (List ℕ × ℕ)
measured m = ok (m.0, length m.0)

loop-append :
    (pre : List ℕ) (n k : ℕ) (s : List ℕ) (args : List Arg)
    → no_percent pre ≡ true
    → length pre + length s < n
    → length s < k
    → vsprintf_loop n (pre ++ s) args ≡ (vsprintf_loop k s args >>= in_front pre)
loop-append [] n k s args e h h' =
    loop-fuel n k s args (omega arith) h' ∙ sym (>>=-ok (vsprintf_loop k s args))
loop-append (c ∷ pre) zero k s args e h h' = absurd (omega arith)
loop-append (c ∷ pre) (suc n) k s args e h h' = elim (Bool-cases (c == b'%')) [
  | inl t ↦ absurd (ground (arith, e, t))
  | inr f ↦
      rw
        (
          loop-plain n c (pre ++ s) args f,
          loop-append pre n k s args (ground (arith, e, f)) (omega arith) h',
        )
        (>>=-assoc (vsprintf_loop k s args) _ _)
]

-- The conversions that print a number.
pub data Specifier : Type 0 where
  decimal integer octal hex upper_hex : Specifier

abbrev pub letter : Specifier → ℕ
letter decimal = b'd'
letter integer = b'i'
letter octal = b'o'
letter hex = b'x'
letter upper_hex = b'X'

abbrev pub radix : Specifier → ℕ
radix decimal = 10
radix integer = 10
radix octal = 8
radix hex = 16
radix upper_hex = 16

abbrev pub with_specifier : Specifier → Flags → Flags
with_specifier decimal f = record f { sign = true }
with_specifier integer f = record f { sign = true }
with_specifier octal f = f
with_specifier hex f = record f { small = true }
with_specifier upper_hex f = f

convert-number :
    (sp : Specifier) (v : Conversion) (s : List ℕ) (args : List Arg)
    → v.rest ≡ letter sp ∷ s
    → convert v args
      ≡ print_word (radix sp) v.field_width v.precision (with_specifier sp v.flags) args
unfolding convert
convert-number decimal v s args e = rw e refl
convert-number integer v s args e = rw e refl
convert-number octal v s args e = rw e refl
convert-number hex v s args e = rw e refl
convert-number upper_hex v s args e = rw e refl

past_cons : (c : ℕ) (s : List ℕ) → past_specifier (c ∷ s) ≡ ok s
unfolding past_specifier
past_cons c s = refl

radix-bounds : (sp : Specifier) → (2 ≤ radix sp) × (radix sp ≤ 36)
radix-bounds decimal = omega arith
radix-bounds integer = omega arith
radix-bounds octal = omega arith
radix-bounds hex = omega arith
radix-bounds upper_hex = omega arith

measured-in_front :
    (pre : List ℕ) (m : Outcome (List ℕ × List Arg))
    → ((m >>= in_front pre) >>= measured) ≡ ((m >>= measured) >>= before pre)
measured-in_front pre (ok o) = ap (λ n. ok (pre ++ o.0, n)) (length-append pre o.0)
measured-in_front pre panic = refl
measured-in_front pre out_of_fuel = refl

-- A text without % comes out as it is, before what the rest of the format gives.
pub vsprintf-append :
    (pre s : List ℕ) (args : List Arg)
    → no_percent pre ≡ true
    → vsprintf (pre ++ s) args ≡ (vsprintf s args >>= before pre)
unfolding vsprintf
vsprintf-append pre s args e =
    rw
      (loop-append pre (length (pre ++ s) + 1) (length s + 1) s args e
        (omega (arith, length-append pre s)) (omega arith))
      (measured-in_front pre (vsprintf_loop (length s + 1) s args))

print_word-run :
    (base num : ℕ) (width precision : ℤ) (flags : Flags) (args : List Arg) (out : List ℕ)
    → number num base width precision flags ≡ ok (some out)
    → print_word base width precision flags (word num ∷ args) ≡ ok (out, args)
unfolding print_word take_word
print_word-run base num width precision flags args out e = rw e refl

loop-conversion :
    (k : ℕ) (s s' : List ℕ) (args args' : List Arg) (out : List ℕ)
    → convert (parse_conversion s) args ≡ ok (out, args')
    → past_specifier (parse_conversion s).rest ≡ ok s'
    → length s < k
    → vsprintf_loop (suc k) (b'%' ∷ s) args
      ≡ (vsprintf_loop (length s' + 1) s' args' >>= in_front out)
loop-conversion k s s' args args' out converted past h =
    let shorter = past-lt s past in
    let same = loop-fuel k (length s' + 1) s' args' (omega arith) (omega arith) in
    rw (loop-percent, converted, past, same) refl

-- A conversion of a number, with an argument for it: a text that is the number in the base, flags
-- and width of the conversion, then what the rest of the format gives. With SPECIAL the conversion
-- is one of those to base 8 or 16.
pub vsprintf-number :
    (sp : Specifier) (s s' : List ℕ) (num : ℕ) (args : List Arg)
    → (parse_conversion s).rest ≡ letter sp ∷ s'
    → num < 2 ^ 32
    → ((with_specifier sp (parse_conversion s).flags).special ≡ true
        → (radix sp ≡ 8) ⊎ (radix sp ≡ 16))
    → (out : List ℕ) × (vsprintf (b'%' ∷ s) (word num ∷ args) ≡ (vsprintf s' args >>= before out))
      × Printed num
          (radix sp)
          (parse_conversion s).field_width
          (with_specifier sp (parse_conversion s).flags)
          out
unfolding vsprintf
vsprintf-number sp s s' num args e fits special =
    let v = parse_conversion s in
    let (base_low, base_high) = radix-bounds sp in
    let (out, run, printed) =
      number-Printed num (radix sp) v.field_width v.precision (with_specifier sp v.flags) fits
        base_low base_high special in
    let converted : convert v (word num ∷ args) ≡ ok (out, args) =
      convert-number sp v s' (word num ∷ args) e
      ∙ print_word-run (radix sp) num v.field_width v.precision (with_specifier sp v.flags) args out
          run in
    let past = ap past_specifier e ∙ past_cons (letter sp) s' in
    (
      out,
      rw
          (
            fuel,
            loop-conversion (length s + 1) s s' (word num ∷ args) args out converted past
                (omega arith),
          )
          (measured-in_front out (vsprintf_loop (length s' + 1) s' args)),
      printed,
    )
  where
    fuel : suc (length s) + 1 ≡ suc (length s + 1)
    fuel = omega arith

convert-nul : (v : Conversion) (args : List Arg) → v.rest ≡ [] → convert v args ≡ ok ([], args)
unfolding convert
convert-nul v args e = rw e refl

past-nul : (s : List ℕ) → s ≡ [] → past_specifier s ≡ panic
unfolding past_specifier
past-nul s e = rw e refl

-- A format that ends before a specifier makes vsprintf step over the NUL that ends it.
pub vsprintf-open :
    (s : List ℕ) (args : List Arg)
    → (parse_conversion s).rest ≡ []
    → vsprintf (b'%' ∷ s) args ≡ panic
unfolding vsprintf
vsprintf-open s args e =
    rw
      (
        fuel,
        loop-percent,
        convert-nul (parse_conversion s) args e,
        past-nul (parse_conversion s).rest e,
      )
      refl
  where
    fuel : suc (length s) + 1 ≡ suc (length s + 1)
    fuel = omega arith
