-- ===== src/Format/Strings.antt =====
-- `vsprintf` ends on every format, copies plain text, and prints numbers where it is asked to.
use rdix.Common.{
  ℕ, zero, suc, ◌+◌, ◌-◌, ◌*◌, ◌≤◌, ◌<◌, ◌≡◌, refl, ap, inl, inr, false, List, [], ◌∷◌, ◌++◌, arith,
  Outcome, ok, >>=-eq, ◌>>=◌, ◌==◌, ==→eq, Bool-cases, length, u32,
}
use rdix.Format.{Flags, no_flags, skip_atoi}
use rdix.Format.Template.{
  Arg, parse_flags, add_flag, parse_width, parse_precision, skip_qualifier, parse_conversion,
  convert, past_specifier, vsprintf_loop,
}

pub skip_atoi-le : (i : ℕ) (s : List ℕ) → length (skip_atoi i s).1 ≤ length s
unfolding skip_atoi
skip_atoi-le i [] = omega arith
skip_atoi-le i (c ∷ s) = ground (arith, skip_atoi-le (u32 (i * 10 + c - b'0')) s)

pub parse_flags-le : (f : Flags) (s : List ℕ) → length (parse_flags f s).1 ≤ length s
unfolding parse_flags
parse_flags-le f [] = omega arith
parse_flags-le f (c ∷ s) = ground (arith, parse_flags-le (add_flag c f) s)

pub parse_width-le : (s : List ℕ) → length (parse_width s).1 ≤ length s
unfolding parse_width
parse_width-le s = ground (arith, skip_atoi-le 0 s)

pub parse_precision-le : (s : List ℕ) → length (parse_precision s).1 ≤ length s
unfolding parse_precision
parse_precision-le [] = omega arith
parse_precision-le (c ∷ s) = ground (arith, parse_width-le s)

pub skip_qualifier-le : (s : List ℕ) → length (skip_qualifier s) ≤ length s
unfolding skip_qualifier
skip_qualifier-le [] = omega arith
skip_qualifier-le (c ∷ s) = ground arith

-- The specifier stands in the text that is left.
pub rest-le : (s : List ℕ) → length (parse_conversion s).rest ≤ length s
unfolding parse_conversion
rest-le s =
    let s1 = (parse_flags no_flags s).1 in
    let s2 = (parse_width s1).1 in
    let s3 = (parse_precision s2).1 in
    omega (
      arith,
      parse_flags-le no_flags s,
      parse_width-le s1,
      parse_precision-le s2,
      skip_qualifier-le s3,
    )

pub past-lt_of :
    (r : List ℕ) (n : ℕ) {s' : List ℕ} → length r ≤ n → past_specifier r ≡ ok s' → length s' < n
unfolding past_specifier
past-lt_of [] n h e = cc
past-lt_of (c ∷ r) n {s'} h e = let same : r ≡ s' = ground arith in omega (arith, ap length same)

pub past-lt :
    (s : List ℕ) {s' : List ℕ}
    → past_specifier (parse_conversion s).rest ≡ ok s'
    → length s' < length s
past-lt s e = past-lt_of (parse_conversion s).rest (length s) (rest-le s) e

-- How one round goes on with the text behind a conversion.
abbrev pub after_conversion :
    (List ℕ → List Arg → Outcome (List ℕ × List Arg))
    → List ℕ
    → List Arg
    → Outcome (List ℕ × List Arg)
after_conversion go s args = convert (parse_conversion s) args >>= λ o.
    past_specifier (parse_conversion s).rest >>= λ s'. go s' o.1 >>= λ m. ok (o.0 ++ m.0, m.1)

pub loop-percent :
    (k : ℕ) (s : List ℕ) (args : List Arg)
    → vsprintf_loop (suc k) (b'%' ∷ s) args ≡ after_conversion (vsprintf_loop k) s args
unfolding vsprintf_loop
loop-percent k s args = refl

pub loop-plain :
    (k c : ℕ) (s : List ℕ) (args : List Arg)
    → (c == b'%') ≡ false
    → vsprintf_loop (suc k) (c ∷ s) args ≡ (vsprintf_loop k s args >>= λ m. ok (c ∷ m.0, m.1))
unfolding vsprintf_loop
loop-plain k c s args e = rw (e, vsprintf_loop)

pub after_conversion-eq :
    (f g : List ℕ → List Arg → Outcome (List ℕ × List Arg)) (s : List ℕ) (args : List Arg)
    → ((s' : List ℕ) (args' : List Arg) → length s' < length s → f s' args' ≡ g s' args')
    → after_conversion f s args ≡ after_conversion g s args
after_conversion-eq f g s args same = >>=-eq (convert (parse_conversion s) args) _ _ λ o run.
    >>=-eq (past_specifier (parse_conversion s).rest) _ _
      λ s' e. ap (λ r. r >>= λ m. ok (o.0 ++ m.0, m.1)) (same s' o.1 (past-lt s e))

-- More rounds than the text is long do not change the result.
pub loop-fuel :
    (k k' : ℕ) (s : List ℕ) (args : List Arg)
    → length s < k
    → length s < k'
    → vsprintf_loop k s args ≡ vsprintf_loop k' s args
loop-fuel zero k' s args h h' = absurd (omega arith)
loop-fuel (suc k) zero s args h h' = absurd (omega arith)
loop-fuel (suc k) (suc k') [] args h h' = unfold vsprintf_loop in refl
loop-fuel (suc k) (suc k') (c ∷ s) args h h' = elim (Bool-cases (c == b'%')) [
  | inl e ↦
      rw (==→eq c b'%' e, loop-percent, loop-percent)
        (after_conversion-eq (vsprintf_loop k) (vsprintf_loop k') s args
          (λ s' args' lt. loop-fuel k k' s' args' (omega arith) (omega arith)))
  | inr e ↦ rw (
    loop-plain k c s args e,
    loop-plain k' c s args e,
    loop-fuel k k' s args (omega arith) (omega arith),
  )
]
