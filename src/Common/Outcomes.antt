-- ===== src/Common/Outcomes.antt =====
-- What a run of kernel code comes to. `panic` is a failed `assert`, `PANIC` or a read through a bad
-- pointer; `out_of_fuel` is a loop that is still running when the rounds given to it are used up.
use mathlib.Core.Path.{◌≡◌, refl}
use mathlib.Core.Bool.{Bool, true, false}

pub data Outcome {ℓ} (A : Type ℓ) : Type ℓ where
  ok : A → Outcome A
  panic : Outcome A
  out_of_fuel : Outcome A

infixl 5 ◌>>=◌ ◌>>◌
abbrev pub ◌>>=◌ {ℓ κ} : {A : Type ℓ} {B : Type κ} → Outcome A → (A → Outcome B) → Outcome B
panic >>= then = panic
out_of_fuel >>= then = out_of_fuel
ok value >>= then = then value

abbrev pub ◌>>◌ {ℓ} : {B : Type ℓ} → Outcome (Unit {0}) → Outcome B → Outcome B
check >> rest = check >>= λ _. rest

-- `assert(b)` of common/assert.h: a kernel that fails it stops.
abbrev pub assert : Bool → Outcome (Unit {0})
assert true = ok tt
assert false = panic

-- The code comes to an end: it returns or stops the kernel.
abbrev pub Halts {ℓ} : {A : Type ℓ} → Outcome A → Type 0
Halts (ok a) = Unit {0}
Halts panic = Unit {0}
Halts out_of_fuel = ⊥

module _ {ℓ κ} {A : Type ℓ} {B : Type κ} where
  pub Halts->>= :
      (m : Outcome A) (f : A → Outcome B) → Halts m → ((a : A) → Halts (f a)) → Halts (m >>= f)
  Halts->>= (ok a) f h k = k a
  Halts->>= panic f h k = tt
  Halts->>= out_of_fuel f h k = h

  -- Two ways to go on are one if they agree on what the first part returns.
  pub >>=-eq :
      (m : Outcome A) (f g : A → Outcome B)
      → ((a : A) → m ≡ ok a → f a ≡ g a)
      → (m >>= f) ≡ (m >>= g)
  >>=-eq (ok a) f g same = same a refl
  >>=-eq panic f g same = refl
  >>=-eq out_of_fuel f g same = refl

pub >>=-assoc {ℓ κ τ} :
    {A : Type ℓ} {B : Type κ} {C : Type τ} (m : Outcome A) (f : A → Outcome B) (g : B → Outcome C)
    → ((m >>= f) >>= g) ≡ (m >>= λ a. f a >>= g)
>>=-assoc (ok a) f g = refl
>>=-assoc panic f g = refl
>>=-assoc out_of_fuel f g = refl

-- What comes out twice the same may be computed once.
pub >>=-twice {ℓ κ} :
    {A : Type ℓ} {B : Type κ} (m : Outcome A) (f : A → Outcome B) → (m >>= λ _. m >>= f) ≡ (m >>= f)
>>=-twice (ok a) f = refl
>>=-twice panic f = refl
>>=-twice out_of_fuel f = refl

pub >>=-ok {ℓ} : {A : Type ℓ} (m : Outcome A) → (m >>= ok) ≡ m
>>=-ok (ok a) = refl
>>=-ok panic = refl
>>=-ok out_of_fuel = refl

-- What a sequence that returns went through.
pub >>=-inv {ℓ κ} :
    {A : Type ℓ} {B : Type κ} (m : Outcome A) (f : A → Outcome B) {b : B}
    → (m >>= f) ≡ ok b
    → (a : A) × (m ≡ ok a) × (f a ≡ ok b)
>>=-inv (ok a) f e = (a, refl, e)
>>=-inv panic f e = cc
>>=-inv out_of_fuel f e = cc

pub assert-inv {ℓ} :
    {B : Type ℓ} (c : Bool) (rest : Outcome B) {b : B}
    → (assert c >> rest) ≡ ok b
    → (c ≡ true) × (rest ≡ ok b)
assert-inv true rest e = (refl, e)
assert-inv false rest e = cc

pub ok-inj {ℓ} : {A : Type ℓ} {a b : A} → ok a ≡ ok b → a ≡ b
ok-inj e = cc

pub panic-ne-ok {ℓ} : {A : Type ℓ} {a : A} → panic ≡ ok a → ⊥
panic-ne-ok e = cc
