-- ===== src/Shell/Edits.antt =====
-- The line that keys make, and a buffer that holds it.
use rdix.Common.{
  ℕ, zero, suc, ◌-◌, ◌<◌, ◌≡◌, ◌≢◌, ◌∙◌, refl, ap, false, List, [], ◌∷◌, ◌++◌, arith, ◌==◌,
  if◌then◌else◌, length, get_or, set, take,
}
use rdix.Shell.{key_backspace, key_tab, is_newline}

-- A text without its last character.
abbrev pub front : List ℕ → List ℕ
front [] = []
front (c ∷ []) = []
front (c ∷ d ∷ s) = c ∷ front (d ∷ s)

-- The line that the keys make of the text typed before them, up to a newline.
abbrev pub edited : List ℕ → List ℕ → List ℕ
edited text [] = text
edited text (ch ∷ input) =
    if is_newline ch
    then text
    else if ch == key_backspace
    then edited (front text) input
    else if ch == key_tab
    then edited text input
    else edited (text ++ ch ∷ []) input

-- The text never fills the buffer: it stays below `count` up to the newline.
abbrev pub Fits : ℕ → List ℕ → List ℕ → Type 0
Fits count text [] = length text < count
Fits count text (ch ∷ input) =
    (length text < count)
    × (is_newline ch ≡ false
        → Fits count
            (if ch == key_backspace
              then front text
              else if ch == key_tab
              then text
              else text ++ ch ∷ [])
            input)

-- The buffer begins with the text, and none of it is a backspace at its start.
pub record Holds (buf text : List ℕ) : Type 0 where
  pub prefix : take (length text) buf ≡ text
  pub clean : get_or text 0 0 ≢ key_backspace

pub take-set_self : (n : ℕ) (xs : List ℕ) (v : ℕ) → take n (set xs n v) ≡ take n xs
take-set_self zero xs v = refl
take-set_self (suc n) [] v = refl
take-set_self (suc n) (x ∷ xs) v = ap (λ r. x ∷ r) (take-set_self n xs v)

take-set-suc :
    (n : ℕ) (xs : List ℕ) (v : ℕ) → n < length xs → take (suc n) (set xs n v) ≡ take n xs ++ v ∷ []
take-set-suc n [] v low = absurd (omega arith)
take-set-suc zero (x ∷ xs) v low = refl
take-set-suc (suc n) (x ∷ xs) v low = ap (λ r. x ∷ r) (take-set-suc n xs v (omega arith))

pub length-push : (text : List ℕ) (ch : ℕ) → length (text ++ ch ∷ []) ≡ suc (length text)
length-push [] ch = refl
length-push (c ∷ text) ch = ap suc (length-push text ch)

pub length-front : (text : List ℕ) → length (front text) ≡ length text - 1
length-front [] = refl
length-front (c ∷ []) = omega arith
length-front (c ∷ d ∷ s) = omega (arith, length-front (d ∷ s))

take-front :
    (text buf : List ℕ)
    → take (length text) buf ≡ text
    → take (length (front text)) buf ≡ front text
take-front [] buf e = refl
take-front (c ∷ []) buf e = refl
take-front (c ∷ d ∷ s) [] e = cc
take-front (c ∷ d ∷ s) (b ∷ buf) e =
    let same : b ≡ c = cc in
    let rest : take (length (d ∷ s)) buf ≡ d ∷ s = cc in rw (same, take-front (d ∷ s) buf rest) refl

pub head-prefix :
    (text buf : List ℕ)
    → 0 < length text
    → take (length text) buf ≡ text
    → get_or buf 0 0 ≡ get_or text 0 0
head-prefix [] buf low e = absurd (omega arith)
head-prefix (c ∷ text) [] low e = cc
head-prefix (c ∷ text) (b ∷ buf) low e = cc

front-clean :
    (text : List ℕ) → get_or text 0 0 ≢ key_backspace → get_or (front text) 0 0 ≢ key_backspace
front-clean [] clean = clean
front-clean (c ∷ []) clean = λ e. absurd (omega arith)
front-clean (c ∷ d ∷ s) clean = clean

push-clean :
    (text : List ℕ) (ch : ℕ)
    → ch ≢ key_backspace
    → get_or text 0 0 ≢ key_backspace
    → get_or (text ++ ch ∷ []) 0 0 ≢ key_backspace
push-clean [] ch differs clean = differs
push-clean (c ∷ s) ch differs clean = clean

-- What each kind of key does to the buffer.
pub Holds-same :
    (buf text : List ℕ) (ch : ℕ) → Holds buf text → Holds (set buf (length text) ch) text
Holds-same buf text ch h = record {
  prefix = take-set_self (length text) buf ch ∙ h.prefix;
  clean = h.clean;
}

pub Holds-front : (buf text : List ℕ) → Holds buf text → Holds buf (front text)
Holds-front buf text h = record {
  prefix = take-front text buf h.prefix;
  clean = front-clean text h.clean;
}

pub Holds-push :
    (buf text : List ℕ) (ch : ℕ)
    → length text < length buf
    → ch ≢ key_backspace
    → Holds buf text
    → Holds (set buf (length text) ch) (text ++ ch ∷ [])
Holds-push buf text ch low differs h = record {
  prefix =
      rw (length-push text ch)
        (take-set-suc (length text) buf ch low ∙ ap (λ r. r ++ ch ∷ []) h.prefix);
  clean = push-clean text ch differs h.clean;
}
