-- ===== src/Text/Names.antt =====
-- Names in paths: what an entry matches, and the last name of a path.
use rdix.Common.{
  ℕ, zero, suc, ◌-◌, ◌≤◌, ◌≡◌, ◌↔◌, ◌∙◌, inl, inr, refl, sym, ap, true, false, Option, some, List,
  [], ◌∷◌, ◌++◌, arith, ok, ◌==◌, ==→eq, ==→ne, Bool-cases, length, take,
}
use mathlib.Core.Path.{subst}
use rdix.Text.{
  strcmp, is_separator, match_name, to_separator, skip_separator, tail_of, next_name, or_null,
  filename_loop, filename,
}

cons-head : {x y : ℕ} {xs ys : List ℕ} → x ∷ xs ≡ y ∷ ys → x ≡ y
cons-head e = cc

cons-tail : {x y : ℕ} {xs ys : List ℕ} → x ∷ xs ≡ y ∷ ys → xs ≡ ys
cons-tail e = cc

false-ne-true : false ≡ true → ⊥
false-ne-true e = cc

-- a path goes on with a separator, or ends
abbrev pub Ends : List ℕ → Type 0
Ends [] = Unit
Ends (c ∷ s) = is_separator c ≡ true

-- An entry matches a path exactly when the path is the entry's name and then ends, or goes on with a
-- separator.
pub match_name_iff :
    (name entry : List ℕ)
    → (match_name name entry ≡ true) ↔ ((rest : List ℕ) × (name ≡ entry ++ rest) × Ends rest)
unfolding match_name
match_name_iff [] [] = (λ e. ([], refl, tt), λ found. refl)
match_name_iff [] (e ∷ entry) = (λ m. cc, λ (rest, p, ends). cc)
match_name_iff (c ∷ name) [] =
    (λ m. (c ∷ name, refl, m), λ (rest, p, ends). subst Ends (sym p) ends)
match_name_iff (c ∷ name) (e ∷ entry) = elim (Bool-cases (c == e)) [
  | inl b ↦
      let same = ==→eq c e b in
      let (there, back) = match_name_iff name entry in
      (
        λ m. let (rest, p, ends) = there (rw b at m) in (rest, rw (same, p) refl, ends),
        λ (rest, p, ends). rw b (back (rest, cons-tail p, ends)),
      )
  | inr b ↦ (
    λ m. absurd (false-ne-true (rw b at m)),
    λ (rest, p, ends). absurd (==→ne c e b (cons-head p)),
  )
]

-- strcmp holds exactly when the texts have the same first `count` characters.
pub strcmp_iff :
    (s t : List ℕ) (count : ℕ) → (strcmp s t count ≡ true) ↔ (take count s ≡ take count t)
unfolding strcmp
strcmp_iff s t zero = (λ e. refl, λ e. refl)
strcmp_iff [] [] (suc n) = (λ e. refl, λ e. refl)
strcmp_iff [] (d ∷ t) (suc n) = (λ e. cc, λ e. cc)
strcmp_iff (c ∷ s) [] (suc n) = (λ e. cc, λ e. cc)
strcmp_iff (c ∷ s) (d ∷ t) (suc n) = elim (Bool-cases (c == d)) [
  | inl b ↦
      let same = ==→eq c d b in
      let (there, back) = strcmp_iff s t n in
      (λ m. rw (same, there (rw b at m)) refl, λ p. rw b (back (cons-tail p)))
  | inr b ↦ (λ m. absurd (false-ne-true (rw b at m)), λ p. absurd (==→ne c d b (cons-head p)))
]

to_separator-le : (s : List ℕ) → length (to_separator s) ≤ length s
unfolding to_separator
to_separator-le [] = omega arith
to_separator-le (c ∷ s) = ground (arith, to_separator-le s)

skip_separator-le : (s : List ℕ) → length (skip_separator s) ≤ length s
skip_separator-le [] = omega arith
skip_separator-le (c ∷ s) = ground arith

tail_of-le : (s : List ℕ) → length (tail_of s) ≤ length s - 1
tail_of-le [] = omega arith
tail_of-le (c ∷ s) = omega arith

pub next_name-shorter :
    (c : ℕ) (s : List ℕ) → (r : List ℕ) × (next_name (c ∷ s) ≡ some r) × (length r ≤ length s)
unfolding next_name
next_name-shorter c s =
    let skipped = skip_separator (c ∷ s) in
    (
      tail_of (to_separator skipped),
      refl,
      omega (
        arith,
        tail_of-le (to_separator skipped),
        to_separator-le skipped,
        skip_separator-le (c ∷ s),
      ),
    )

filename_loop-ok :
    (k : ℕ) (prev next : List ℕ)
    → length next ≤ k
    → (r : Option (List ℕ)) × (filename_loop k prev (some next) ≡ ok r)
unfolding filename_loop
filename_loop-ok k prev [] h = (or_null (skip_separator prev), refl)
filename_loop-ok zero prev (c ∷ next) h = absurd (omega arith)
filename_loop-ok (suc k) prev (c ∷ next) h =
    let (r, e, short) = next_name-shorter c next in
    let (found, run) = filename_loop-ok k (c ∷ next) r (omega arith) in
    (found, ap (filename_loop k (c ∷ next)) e ∙ run)

-- filename returns on every path that is not empty.
pub filename_total : (c : ℕ) (path : List ℕ) → (r : Option (List ℕ)) × (filename (c ∷ path) ≡ ok r)
unfolding filename
filename_total c path =
    let (r, e, short) = next_name-shorter c path in
    let (found, run) = filename_loop-ok (length (c ∷ path)) (c ∷ path) r (omega arith) in
    (found, ap (filename_loop (length (c ∷ path)) (c ∷ path)) e ∙ run)
