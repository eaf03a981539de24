-- ===== src/Text/Copy.antt =====
-- What the copies of kernel/string.c leave in the memory.
use rdix.Common.{
  ℕ, zero, suc, ◌+◌, ◌-◌, ◌^◌, ◌<◌, ◌≡◌, ◌∙◌, refl, sym, ap, List, [], ◌∷◌, ◌++◌, arith, set, take,
  ◌==◌, sub32, Bool-cases, ==→eq, inl, inr,
}
use rdix.Text.{strcpy, strncpy}

-- a text laid over a memory from a place on
abbrev pub overlay : ℕ → List ℕ → List ℕ → List ℕ
overlay at [] mem = mem
overlay zero (c ∷ cs) [] = []
overlay zero (c ∷ cs) (m ∷ mem) = c ∷ overlay zero cs mem
overlay (suc at) (c ∷ cs) [] = []
overlay (suc at) (c ∷ cs) (m ∷ mem) = m ∷ overlay at (c ∷ cs) mem

overlay-set-suc :
    (at c : ℕ) (cs mem : List ℕ) → overlay (suc at) cs (set mem at c) ≡ overlay at (c ∷ cs) mem
overlay-set-suc zero c [] [] = refl
overlay-set-suc zero c (d ∷ cs) [] = refl
overlay-set-suc zero c [] (m ∷ mem) = refl
overlay-set-suc zero c (d ∷ cs) (m ∷ mem) = refl
overlay-set-suc (suc at) c [] [] = refl
overlay-set-suc (suc at) c (d ∷ cs) [] = refl
overlay-set-suc (suc at) c [] (m ∷ mem) = ap (λ r. m ∷ r) (overlay-set-suc at c [] mem)
overlay-set-suc (suc at) c (d ∷ cs) (m ∷ mem) = ap (λ r. m ∷ r) (overlay-set-suc at c (d ∷ cs) mem)

overlay-set :
    (at c : ℕ) (cs mem : List ℕ) → overlay (at + 1) cs (set mem at c) ≡ overlay at (c ∷ cs) mem
overlay-set at c cs mem =
    let next : at + 1 ≡ suc at = omega arith in rw next (overlay-set-suc at c cs mem)

take-nil : (n : ℕ) → take {A = ℕ} n [] ≡ []
take-nil zero = refl
take-nil (suc n) = refl

-- strcpy writes the text and its NUL at the place, and nothing else.
pub strcpy-overlay :
    (at : ℕ) (src dest : List ℕ) → strcpy at src dest ≡ overlay at (src ++ (0 ∷ [])) dest
unfolding strcpy
strcpy-overlay at [] dest = overlay-set at 0 [] dest
strcpy-overlay at (c ∷ src) dest =
    strcpy-overlay (at + 1) src (set dest at c) ∙ overlay-set at c (src ++ (0 ∷ [])) dest

-- strncpy writes at most one character less than its count, then a NUL, and nothing else.
pub strncpy-overlay :
    (at : ℕ) (src : List ℕ) (count : ℕ) (dest : List ℕ)
    → 0 < count
    → count < 2 ^ 32
    → strncpy at src count dest ≡ overlay at (take (count - 1) src ++ (0 ∷ [])) dest
unfolding strncpy
strncpy-overlay at [] count dest low high = rw (take-nil (count - 1)) (overlay-set at 0 [] dest)
strncpy-overlay at (c ∷ src) count dest low high =
    let less : sub32 count 1 ≡ count - 1 = omega arith in
    elim (Bool-cases (count - 1 == 0)) [
      | inl b ↦
          let done : count - 1 ≡ 0 = ==→eq (count - 1) 0 b in
          rw (less, b, done) (overlay-set at 0 [] dest)
      | inr b ↦
          let more : count - 1 ≡ suc (count - 1 - 1) = ground (arith, b) in
          rw (less, b)
            (strncpy-overlay (at + 1) src (count - 1) (set dest at c) (omega (arith, more))
                (omega arith)
              ∙ overlay-set at c (take (count - 1 - 1) src ++ (0 ∷ [])) dest
              ∙ ap (λ n. overlay at (take n (c ∷ src) ++ (0 ∷ [])) dest) (sym more))
    ]
