-- ===== src/Format/Total.antt =====
-- `vsprintf` comes to an end on every format and all arguments.
use rdix.Common.{
  ℕ, zero, suc, ◌+◌, ◌/◌, ◌<◌, ◌≡◌, refl, inl, inr, Bool, true, false, ◌||◌, none, some, List, [],
  ◌∷◌, ◌++◌, arith, Outcome, ok, panic, out_of_fuel, Halts, Halts->>=, ◌>>=◌, ltb, ◌==◌,
  if◌then◌else◌, ==→eq, Bool-cases, length,
}
use rdix.Common.Int.{ℤ}
use rdix.Format.{digits_loop, digits, Flags, number}
use rdix.Format.Template.{
  Arg, word, text, Conversion, parse_conversion, take_word, take_text, print_word, pointer_width,
  head_or_nul, convert, past_specifier, vsprintf_loop, vsprintf,
}
use mathlib.Core.Path.{subst}
use rdix.Format.Strings.{past-lt, after_conversion, loop-percent, loop-plain}

digits_loop-Halts :
    (room : ℕ) (small : Bool) (base num : ℕ) → Halts (digits_loop room small base num)
unfolding digits_loop
digits_loop-Halts zero small base num = ground arith
digits_loop-Halts (suc room) small base num = elim (Bool-cases (num == 0)) [
  | inl e ↦ rw (e, digits_loop) tt
  | inr e ↦
      rw (e, digits_loop)
        (Halts->>= (digits_loop room small base (num / base)) _
          (digits_loop-Halts room small base (num / base)) (λ a. tt))
]

digits-Halts : (small : Bool) (base num : ℕ) → Halts (digits small base num)
unfolding digits
digits-Halts small base num = ground (arith, digits_loop-Halts 36 small base num)

number-Halts :
    (num base : ℕ) (size precision : ℤ) (flags : Flags)
    → Halts (number num base size precision flags)
unfolding number
number-Halts num base size precision flags = elim (Bool-cases (ltb base 2 || ltb 36 base)) [
  | inl e ↦ rw e tt
  | inr e ↦ rw e (Halts->>= (digits _ base num) _ (digits-Halts _ base num) (λ a. tt))
]

take_word-Halts : (args : List Arg) → Halts (take_word args)
unfolding take_word
take_word-Halts [] = tt
take_word-Halts (word w ∷ args) = tt
take_word-Halts (text t ∷ args) = tt

take_text-Halts : (args : List Arg) → Halts (take_text args)
unfolding take_text
take_text-Halts [] = tt
take_text-Halts (word w ∷ args) = tt
take_text-Halts (text t ∷ args) = tt

print_word-Halts :
    (base : ℕ) (width precision : ℤ) (flags : Flags) (args : List Arg)
    → Halts (print_word base width precision flags args)
unfolding print_word
print_word-Halts base width precision flags args =
    Halts->>= (take_word args) _ (take_word-Halts args) λ o.
      Halts->>= (number o.0 base width precision flags) _
        (number-Halts o.0 base width precision flags) (elim [ some s ↦ tt | none ↦ tt ])

Halts-if {ℓ} :
    {A : Type ℓ} (b : Bool) (x y : Outcome A) → Halts x → Halts y → Halts (if b then x else y)
Halts-if true x y h k = h
Halts-if false x y h k = k

convert-Halts : (v : Conversion) (args : List Arg) → Halts (convert v args)
unfolding convert
convert-Halts v args =
    let ch = head_or_nul v.rest in
    Halts-if (ch == b'd' || ch == b'i') _ _ (print-Halts 10 _) (
      Halts-if (ch == b'p') _ _
        (print_word-Halts 16 (pointer_width v).0 v.precision (pointer_width v).1 args)
        (Halts-if (ch == b'o') _ _ (print-Halts 8 _) (
          Halts-if (ch == b'x') _ _ (print-Halts 16 _) (
            Halts-if (ch == b'X') _ _ (print-Halts 16 _) (
              Halts-if (ch == b's') _ _ (take_text-Halts args) (
                Halts-if (ch == b'c') _ _
                  (Halts->>= (take_word args) _ (take_word-Halts args) (λ o. tt)) tt))))))
  where
    print-Halts :
        (base : ℕ) (flags : Flags) → Halts (print_word base v.field_width v.precision flags args)
    print-Halts base flags = print_word-Halts base v.field_width v.precision flags args

past_specifier-Halts : (s : List ℕ) → Halts (past_specifier s)
unfolding past_specifier
past_specifier-Halts [] = tt
past_specifier-Halts (c ∷ s) = tt

after-Halts :
    (go : List ℕ → List Arg → Outcome (List ℕ × List Arg)) (s : List ℕ) (args : List Arg)
    → ((s' : List ℕ) (args' : List Arg) → length s' < length s → Halts (go s' args'))
    → Halts (after_conversion go s args)
after-Halts go s args ih =
    Halts->>= (convert (parse_conversion s) args) _ (convert-Halts (parse_conversion s) args)
      (λ o. go_on o (past_specifier (parse_conversion s).rest) refl)
  where
    go_on :
        (o : List ℕ × List Arg) (r : Outcome (List ℕ))
        → past_specifier (parse_conversion s).rest ≡ r
        → Halts {A = List ℕ × List Arg} (r >>= λ s'. go s' o.1 >>= λ m. ok (o.0 ++ m.0, m.1))
    go_on o (ok s') e = Halts->>= (go s' o.1) _ (ih s' o.1 (past-lt s e)) (λ m. tt)
    go_on o panic e = tt
    go_on o out_of_fuel e =
        subst (Halts {A = List ℕ}) e (past_specifier-Halts (parse_conversion s).rest)

loop-Halts : (k : ℕ) (s : List ℕ) (args : List Arg) → length s < k → Halts (vsprintf_loop k s args)
loop-Halts zero s args h = absurd (omega arith)
loop-Halts (suc k) [] args h = unfold vsprintf_loop in tt
loop-Halts (suc k) (c ∷ s) args h = elim (Bool-cases (c == b'%')) [
  | inl e ↦
      rw (==→eq c b'%' e, loop-percent)
        (after-Halts (vsprintf_loop k) s args (λ s' args' lt. loop-Halts k s' args' (omega arith)))
  | inr e ↦
      rw (loop-plain k c s args e)
        (Halts->>= (vsprintf_loop k s args) _ (loop-Halts k s args (omega arith)) (λ m. tt))
]

-- For every format and every list of arguments vsprintf comes to an end: it returns, or it fails an
-- assertion or reads an argument or a character that is not there, but it does not run for ever.
pub vsprintf-Halts : (fmt : List ℕ) (args : List Arg) → Halts (vsprintf fmt args)
unfolding vsprintf
vsprintf-Halts fmt args =
    Halts->>= (vsprintf_loop (length fmt + 1) fmt args) _
      (loop-Halts (length fmt + 1) fmt args (omega arith)) (λ m. tt)
