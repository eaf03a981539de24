-- ===== src/Shell/Words.antt =====
-- cmd_parse of buildin/buildin_shell.c gives the words of the line.
use rdix.Common.{
  ℕ, zero, suc, ◌≤◌, ◌≡◌, ◌≢◌, ◌∙◌, inl, inr, refl, ap, true, false, List, [], ◌∷◌, ◌++◌, arith, ok,
  panic, ltb, le→ltb, ◌==◌, Bool-cases, if◌then◌else◌, length, take, length-take, ltb→lt, ltb→le,
}
use rdix.Shell.{skip_token, cut_word, parse_words, cmd_parse, max_arg_nr}

-- Only separators; no separator; at the end or at a separator.
abbrev pub Blank : ℕ → List ℕ → Type 0
Blank token [] = Unit {0}
Blank token (c ∷ s) = (c ≡ token) × Blank token s

abbrev pub Lacks : ℕ → List ℕ → Type 0
Lacks token [] = Unit {0}
Lacks token (c ∷ s) = (c ≢ token) × Lacks token s

abbrev pub AtEnd : ℕ → List ℕ → Type 0
AtEnd token [] = Unit {0}
AtEnd token (c ∷ s) = c ≡ token

-- The words of a text: what stands between separators, none of it empty.
abbrev pub Split : ℕ → List ℕ → List (List ℕ) → Type 0
Split token s [] = Blank token s
Split token s ([] ∷ words) = ⊥
Split token s ((c ∷ w) ∷ words) =
    (pre : List ℕ) × (rest : List ℕ) × (s ≡ pre ++ ((c ∷ w) ++ rest))
    × Blank token pre
    × Lacks token (c ∷ w)
    × AtEnd token rest
    × Split token rest words

skip_token-Blank :
    (token : ℕ) (pre s : List ℕ)
    → Blank token pre
    → skip_token token (pre ++ s) ≡ skip_token token s
unfolding skip_token
skip_token-Blank token [] s blank = refl
skip_token-Blank token (c ∷ pre) s (same, blank) =
    let is : (c == token) ≡ true = ground (arith, same) in
    rw is (skip_token-Blank token pre s blank)

skip_token-all : (token : ℕ) (s : List ℕ) → Blank token s → skip_token token s ≡ []
unfolding skip_token
skip_token-all token [] blank = refl
skip_token-all token (c ∷ s) (same, blank) =
    let is : (c == token) ≡ true = ground (arith, same) in rw is (skip_token-all token s blank)

skip_token-ne : (token c : ℕ) (s : List ℕ) → c ≢ token → skip_token token (c ∷ s) ≡ c ∷ s
unfolding skip_token
skip_token-ne token c s differs =
    let is : (c == token) ≡ false = ground (arith, differs) in rw is refl

-- what stands behind the separator
abbrev behind : List ℕ → List ℕ
behind [] = []
behind (c ∷ s) = s

cut_word-word :
    (token : ℕ) (w rest : List ℕ)
    → Lacks token w
    → AtEnd token rest
    → cut_word token (w ++ rest) ≡ (w, behind rest)
unfolding cut_word
cut_word-word token [] [] lacks at = refl
cut_word-word token [] (c ∷ s) lacks at =
    let is : (c == token) ≡ true = ground (arith, at) in rw is refl
cut_word-word token (c ∷ w) rest (differs, lacks) at =
    let is : (c == token) ≡ false = ground (arith, differs) in
    rw (is, cut_word-word token w rest lacks at) refl

parse_words-behind :
    (n token : ℕ) (rest : List ℕ)
    → AtEnd token rest
    → parse_words n token (behind rest) ≡ parse_words n token rest
unfolding parse_words
parse_words-behind zero token rest at = refl
parse_words-behind (suc n) token [] at = refl
parse_words-behind (suc n) token (c ∷ s) at =
    rw (parse_words, skip_token-Blank token (c ∷ []) s (at, tt)) refl

parse_words-Split :
    (n token : ℕ) (s : List ℕ) (words : List (List ℕ))
    → Split token s words
    → parse_words n token s ≡ take n words
unfolding parse_words
parse_words-Split zero token s words h = refl
parse_words-Split (suc n) token s [] h = rw (parse_words, skip_token-all token s h) refl
parse_words-Split (suc n) token s ([] ∷ words) h = absurd h
parse_words-Split (suc n) token s ((c ∷ w) ∷ words)
      (pre, rest, is, blank, (differs, lacks), at, more) =
    let found : skip_token token s ≡ c ∷ (w ++ rest) = rw is (
      skip_token-Blank token pre (c ∷ (w ++ rest)) blank
      ∙ skip_token-ne token c (w ++ rest) differs) in
    let cut = cut_word-word token (c ∷ w) rest (differs, lacks) at in
    rw (parse_words, found, cut)
      (ap (λ r. (c ∷ w) ∷ r)
        (parse_words-behind n token rest at ∙ parse_words-Split n token rest words more))

take-all {ℓ} : {A : Type ℓ} (n : ℕ) (xs : List A) → length xs ≤ n → take n xs ≡ xs
take-all zero [] h = refl
take-all zero (x ∷ xs) h = absurd (omega arith)
take-all (suc n) [] h = refl
take-all (suc n) (x ∷ xs) h = ap (λ r. x ∷ r) (take-all n xs (omega arith))

-- cmd_parse gives the words of the line where they are fewer than 16, however many separators stand
-- between them; with more of them it writes behind `argv`.
pub cmd_parse-Split :
    (cmd : List ℕ) (token : ℕ) (words : List (List ℕ))
    → Split token cmd words
    → cmd_parse cmd token ≡ (if ltb (length words) max_arg_nr then ok words else panic)
unfolding cmd_parse
cmd_parse-Split cmd token words h =
    let argv = parse_words-Split max_arg_nr token cmd words h in
    elim (Bool-cases (ltb (length words) max_arg_nr)) [
      | inl b ↦
          let few = ltb→lt (length words) max_arg_nr b in
          rw (argv, take-all max_arg_nr words (omega arith), b) refl
      | inr b ↦
          let many = ltb→le (length words) max_arg_nr b in
          let full : ltb (length (take max_arg_nr words)) max_arg_nr ≡ false =
            le→ltb _ _ (omega (arith, length-take max_arg_nr words)) in
          rw (argv, b, full) refl
    ]
