-- ===== src/Fs/Pwd.antt =====
-- The path of the working directory: abspath of fs/minix1/namei.c.
use rdix.Common.{
  ℕ, zero, suc, ◌+◌, ◌-◌, ◌<◌, ◌≡◌, ◌⊎◌, ◌∙◌, inl, inr, refl, sym, ap, true, Option, none, some,
  List, [], ◌∷◌, ◌++◌, arith, ok, panic, Halts, Halts->>=, >>=-inv, ok-inj, panic-ne-ok,
  none-ne-some, some-inj, ltb, ltb→lt, ◌==◌, Bool-cases, Option-cases, length, length-append, take,
  drop,
}
use mathlib.Core.Path.{subst}
use rdix.Text.{is_separator, last_char, addsep, strcmp, strrsep, strrsep_from}
use rdix.Fs.Total.{if-Halts, option-Halts}
use rdix.Fs.Removal.{Halts-cases}
use rdix.Fs.Paths.{parent_path, join_path, abspath}

-- The text ends with a separator.
abbrev pub Closed : List ℕ → Type 0
Closed s = (c : ℕ) × (last_char s ≡ ok c) × (is_separator c ≡ true)

-- A path from the root to a directory: it begins and ends with a separator.
abbrev pub IsPwd : List ℕ → Type 0
IsPwd [] = ⊥
IsPwd (c ∷ s) = (is_separator c ≡ true) × Closed (c ∷ s)

last_char-append : (s : List ℕ) (c : ℕ) (t : List ℕ) → last_char (s ++ c ∷ t) ≡ last_char (c ∷ t)
unfolding last_char
last_char-append [] c t = refl
last_char-append (d ∷ []) c t = refl
last_char-append (d ∷ e ∷ s) c t = last_char-append (e ∷ s) c t

Closed-append : (s : List ℕ) (c : ℕ) (t : List ℕ) → Closed (c ∷ t) → Closed (s ++ c ∷ t)
Closed-append s c t (l, last, sep) = (l, last_char-append s c t ∙ last, sep)

IsPwd-append : (s : List ℕ) (c : ℕ) (t : List ℕ) → IsPwd s → Closed (c ∷ t) → IsPwd (s ++ c ∷ t)
IsPwd-append [] c t h closed = absurd h
IsPwd-append (d ∷ s) c t (first, _) closed = (first, Closed-append (d ∷ s) c t closed)

addsep-Closed : (s t : List ℕ) → addsep s ≡ ok t → Closed t
unfolding addsep last_char
addsep-Closed s t e =
    let (c, last, rest) = >>=-inv (last_char s) _ e in
    elim (Bool-cases (is_separator c)) [
      | inl b ↦ subst Closed (ok-inj (rw b at rest)) (c, last, b)
      | inr b ↦ subst Closed (ok-inj (rw b at rest)) (Closed-append s b'/' [] (b'/', refl, refl))
    ]

-- What `strrsep` finds is an end of the text that begins with a separator, or what it had found.
strrsep_from-end :
    (prev : Option (List ℕ)) (s rest : List ℕ)
    → strrsep_from prev s ≡ some rest
    → (prev ≡ some rest)
      ⊎ ((pre : List ℕ) × (c : ℕ) × (t : List ℕ) × (rest ≡ c ∷ t)
          × (s ≡ pre ++ c ∷ t)
          × (is_separator c ≡ true))
unfolding strrsep_from
strrsep_from-end prev [] rest e = inl e
strrsep_from-end prev (c ∷ []) rest e = inl e
strrsep_from-end prev (c ∷ d ∷ s) rest e = elim (Bool-cases (is_separator c)) [
  | inl b ↦ elim (strrsep_from-end (some (c ∷ d ∷ s)) (d ∷ s) rest (rw (b, strrsep_from) at e)) [
    | inl here ↦ inr ([], c, d ∷ s, sym (some-inj here), refl, b)
    | inr (pre, x, t, is, split, sep) ↦ inr (c ∷ pre, x, t, is, ap (λ r. c ∷ r) split, sep)
  ]
  | inr b ↦ elim (strrsep_from-end prev (d ∷ s) rest (rw (b, strrsep_from) at e)) [
    | inl here ↦ inl here
    | inr (pre, x, t, is, split, sep) ↦ inr (c ∷ pre, x, t, is, ap (λ r. c ∷ r) split, sep)
  ]
]

take-append :
    (pre : List ℕ) (c : ℕ) (t : List ℕ) → take (length pre + 1) (pre ++ c ∷ t) ≡ pre ++ c ∷ []
take-append [] c t = refl
take-append (x ∷ pre) c t =
    let next : length (x ∷ pre) + 1 ≡ suc (length pre + 1) = omega arith in
    rw next (ap (λ r. x ∷ r) (take-append pre c t))

front-IsPwd :
    (pre : List ℕ) (c : ℕ) (t : List ℕ)
    → is_separator c ≡ true
    → IsPwd (pre ++ c ∷ t)
    → IsPwd (pre ++ c ∷ [])
unfolding last_char
front-IsPwd [] c t sep h = (sep, (c, refl, sep))
front-IsPwd (x ∷ pre) c t sep (first, _) = (first, Closed-append (x ∷ pre) c [] (c, refl, sep))

parent_path-IsPwd : (old p : List ℕ) → IsPwd old → parent_path old ≡ ok p → IsPwd p
unfolding parent_path strrsep
parent_path-IsPwd old p h e = elim (Bool-cases (length old == 1)) [
  | inl b ↦ subst IsPwd (ok-inj (rw b at e)) h
  | inr b ↦ elim (Option-cases (strrsep old)) [
    | inl gone ↦ absurd (panic-ne-ok (rw (b, gone) at e))
    | inr (rest, found) ↦ elim (strrsep_from-end none old rest found) [
      | inl here ↦ absurd (none-ne-some here)
      | inr (pre, c, t, is, split, sep) ↦
          let cut : take (length old - length rest + 1) old ≡ pre ++ c ∷ [] =
            let long : length (pre ++ c ∷ t) - length (c ∷ t) ≡ length pre =
              omega (arith, length-append pre (c ∷ t)) in
            rw (split, is, long) (take-append pre c t) in
          subst IsPwd (sym cut ∙ ok-inj (rw (b, found) at e))
            (front-IsPwd pre c t sep (subst IsPwd split h))
    ]
  ]
]

drop-Closed :
    (n : ℕ) (s : List ℕ)
    → n < length s
    → Closed s
    → (c : ℕ) × (t : List ℕ) × (drop n s ≡ c ∷ t) × Closed (c ∷ t)
unfolding last_char
drop-Closed n [] low closed = absurd (omega arith)
drop-Closed zero (c ∷ s) low closed = (c, s, refl, closed)
drop-Closed (suc n) (c ∷ []) low closed = absurd (omega arith)
drop-Closed (suc n) (c ∷ d ∷ s) low closed = drop-Closed n (d ∷ s) (omega arith) closed

join_path-IsPwd :
    (old new pwd : List ℕ) → IsPwd old → Closed new → join_path old new ≡ ok pwd → IsPwd pwd
unfolding join_path
join_path-IsPwd old [] pwd h closed e = absurd (panic-ne-ok e)
join_path-IsPwd old (c ∷ s) pwd h closed e = elim (Bool-cases (is_separator c)) [
  | inl b ↦ let is : IsPwd (c ∷ s) = (b, closed) in subst IsPwd (ok-inj (rw b at e)) is
  | inr b ↦ elim (Bool-cases (strcmp (c ∷ s) (b'.' ∷ b'.' ∷ []) 2)) [
    | inl up ↦
        let (p, parent, last) = >>=-inv (parent_path old) _ (rw (b, up) at e) in
        let front = parent_path-IsPwd old p h parent in
        elim (Bool-cases (ltb 3 (length (c ∷ s)))) [
          | inl long ↦
              let (d, t, is, ends) =
                drop-Closed 3 (c ∷ s) (ltb→lt 3 (length (c ∷ s)) long) closed in
              subst IsPwd (ok-inj (rw (long, is) at last)) (IsPwd-append p d t front ends)
          | inr short ↦ subst IsPwd (ok-inj (rw short at last)) front
        ]
    | inr down ↦ elim (Bool-cases (strcmp (c ∷ s) (b'.' ∷ []) 1)) [
      | inl dot ↦ elim (Bool-cases (ltb 2 (length (c ∷ s)))) [
        | inl long ↦ absurd (panic-ne-ok (rw (b, down, dot, long) at e))
        | inr short ↦ subst IsPwd (ok-inj (rw (b, down, dot, short) at e)) h
      ]
      | inr plain ↦ subst IsPwd (ok-inj (rw (b, down, plain) at e)) (IsPwd-append old c s h closed)
    ]
  ]
]

last_char-Halts : (s : List ℕ) → Halts (last_char s)
unfolding last_char
last_char-Halts [] = tt
last_char-Halts (c ∷ []) = tt
last_char-Halts (c ∷ d ∷ s) = last_char-Halts (d ∷ s)

parent_path-Halts : (old : List ℕ) → Halts (parent_path old)
unfolding parent_path
parent_path-Halts old =
    if-Halts (length old == 1) _ _ tt (option-Halts (strrsep old) _ _ tt (λ r. tt))

join_path-Halts : (old new : List ℕ) → Halts (join_path old new)
unfolding join_path
join_path-Halts old [] = tt
join_path-Halts old (c ∷ s) = if-Halts (is_separator c) _ _ tt (
    if-Halts (strcmp (c ∷ s) (b'.' ∷ b'.' ∷ []) 2) _ _
      (Halts->>= (parent_path old) _ (parent_path-Halts old) (λ p. tt))
      (if-Halts (strcmp (c ∷ s) (b'.' ∷ []) 1) _ _ (if-Halts (ltb 2 (length (c ∷ s))) _ _ tt tt)
        tt))

abspath-Halts : (old path : List ℕ) → Halts (abspath old path)
unfolding abspath addsep
abspath-Halts old path =
    Halts->>= (addsep path) _ (Halts->>= (last_char path) _ (last_char-Halts path) (λ c. tt))
      (λ new. join_path-Halts old new)

-- abspath keeps the path of the working directory a path from the root to a directory, which begins
-- and ends with a separator, whatever path it is given; where it returns none it stops the kernel.
pub abspath-IsPwd :
    (oldpath path : List ℕ)
    → IsPwd oldpath
    → (abspath oldpath path ≡ panic)
      ⊎ ((pwd : List ℕ) × (abspath oldpath path ≡ ok pwd) × IsPwd pwd)
unfolding abspath
abspath-IsPwd oldpath path h =
    elim (Halts-cases (abspath oldpath path) (abspath-Halts oldpath path)) [
      | inl stopped ↦ inl stopped
      | inr (pwd, run) ↦
          let (new, sep, last) = >>=-inv (addsep path) _ run in
          inr (pwd, run, join_path-IsPwd oldpath new pwd h (addsep-Closed path new sep) last)
    ]
