-- ===== src/Devices/Elevator.antt =====
-- In which order a disk serves the requests that wait.
use rdix.Common.{
  ℕ, zero, suc, ◌+◌, ◌≤◌, ◌≡◌, ◌∙◌, refl, ap, none, some, List, [], ◌∷◌, ◌++◌, arith, length,
}
use rdix.Devices.{Direct, direct_fore, direct_back, turn, head, get_next_req}

-- The list behind `remove_node`, seen from the next request.
abbrev pub tail {ℓ} : {A : Type ℓ} → List A → List A
tail [] = []
tail (r ∷ rs) = rs

-- The requests that `n` calls of device_request serve, where no new one comes.
unfoldable pub served {ℓ} : {A : Type ℓ} → ℕ → Direct → List A → List A → List A
served zero direct before after = []
served (suc n) direct before after =
    let (direct', next) = get_next_req direct before after in
    let fore = served n direct_fore before (tail after) in
    let back = served n direct_back (tail before) after in
    elim next [
      | none ↦ []
      | some r ↦ r ∷ (elim direct' [ direct_fore ↦ fore | direct_back ↦ back ])
    ]

-- What the elevator promises: on in its direction to the end of the list, and then back.
abbrev pub sweep {ℓ} : {A : Type ℓ} → Direct → List A → List A → List A
sweep direct_fore before after = after ++ before
sweep direct_back before after = before ++ after

append-nil {ℓ} : {A : Type ℓ} (xs : List A) → xs ++ [] ≡ xs
append-nil [] = refl
append-nil (x ∷ xs) = ap (λ r. x ∷ r) (append-nil xs)

-- Without new requests the disk serves those behind the current one in its direction, from the
-- nearest on, then those on the other side, from the nearest on, and each once, if `n` is at least
-- their number.
pub served-sweep {ℓ} :
    {A : Type ℓ} (n : ℕ) (direct : Direct) (before after : List A)
    → length before + length after ≤ n
    → served n direct before after ≡ sweep direct before after
unfolding served get_next_req turn head
served-sweep zero direct_fore [] [] h = refl
served-sweep zero direct_back [] [] h = refl
served-sweep zero direct (r ∷ before) after h = absurd (omega (arith, h))
served-sweep zero direct [] (r ∷ after) h = absurd (omega (arith, h))
served-sweep (suc n) direct_fore [] [] h = refl
served-sweep (suc n) direct_back [] [] h = refl
served-sweep (suc n) direct_fore before (r ∷ after) h =
    ap (λ rs. r ∷ rs) (served-sweep n direct_fore before after (omega (arith, h)))
served-sweep (suc n) direct_fore (r ∷ before) [] h =
    ap (λ rs. r ∷ rs) (served-sweep n direct_back before [] (omega (arith, h)) ∙ append-nil before)
served-sweep (suc n) direct_back (r ∷ before) after h =
    ap (λ rs. r ∷ rs) (served-sweep n direct_back before after (omega (arith, h)))
served-sweep (suc n) direct_back [] (r ∷ after) h =
    ap (λ rs. r ∷ rs) (served-sweep n direct_fore [] after (omega (arith, h)) ∙ append-nil after)
