-- ===== src/Common/Bytes.antt =====
-- Bits of a byte, by evaluation over all values.
use Prim.Native.Nat.{ℕ, zero, suc, ◌-◌, ◌<◌, ◌^◌, ◌%◌, bit_and, bit_or}
use mathlib.Core.Path.{◌≡◌, refl}
use mathlib.Core.Bool.{Bool, true, false, ◌&&◌, not}
use native.Mathlib.Omega.{arith}
use mathlib.Core.Logic.{inl, inr}
use rdix.Common.Tests.{Bool-cases, ==→eq, ==→ne, ◌==◌, if◌then◌else◌}

-- Whether `p` holds of every number below the bound.
pub every_below : (ℕ → Bool) → ℕ → Bool
every_below p zero = true
every_below p (suc bound) = every_below p bound && p bound

pub every_below-lt :
    (p : ℕ → Bool) (bound : ℕ) {k : ℕ} → k < bound → every_below p bound ≡ true → p k ≡ true
unfolding every_below
every_below-lt p zero below all = absurd (omega arith)
every_below-lt p (suc bound) {k} below all = elim (Bool-cases (k == bound)) [
  | inl e ↦ rw (==→eq k bound e) (ground arith)
  | inr e ↦ every_below-lt p bound (omega (arith, ==→ne k bound e)) (ground arith)
]

bool_eq : Bool → Bool → Bool
bool_eq true b = b
bool_eq false b = not b

bool_eq-eq : (a b : Bool) → bool_eq a b ≡ true → a ≡ b
unfolding bool_eq
bool_eq-eq a b h = ground arith

-- bit `k` of a byte, as C tests it: `b & (1 << k)`
unfoldable pub test_bit : ℕ → ℕ → Bool
test_bit b k = not (bit_and b (2 ^ k) == 0)

-- `b |= 1 << k` on a u8
unfoldable pub set_bit : ℕ → ℕ → ℕ
set_bit b k = bit_or b (2 ^ k) % 2 ^ 8

-- `b &= ~(1 << k)` on a u8: the complement is that of a 32-bit int
unfoldable pub clear_bit : ℕ → ℕ → ℕ
clear_bit b k = bit_and b (2 ^ 32 - 1 - 2 ^ k) % 2 ^ 8

abbrev set_holds : ℕ → ℕ → ℕ → Bool
set_holds k j b = bool_eq (test_bit (set_bit b k) j) (if k == j then true else test_bit b j)

set_table : every_below (λ k. every_below (λ j. every_below (set_holds k j) 256) 8) 8 ≡ true
unfolding every_below test_bit set_bit bool_eq
set_table = refl

pub test_bit-set_bit :
    (b k j : ℕ)
    → b < 256
    → k < 8
    → j < 8
    → test_bit (set_bit b k) j ≡ (if k == j then true else test_bit b j)
test_bit-set_bit b k j hb hk hj =
    let row =
      every_below-lt (λ i. every_below (λ j. every_below (set_holds i j) 256) 8) 8 hk set_table in
    let column = every_below-lt (λ i. every_below (set_holds k i) 256) 8 hj row in
    bool_eq-eq _ _ (every_below-lt (set_holds k j) 256 hb column)

abbrev clear_holds : ℕ → ℕ → ℕ → Bool
clear_holds k j b = bool_eq (test_bit (clear_bit b k) j) (if k == j then false else test_bit b j)

clear_table : every_below (λ k. every_below (λ j. every_below (clear_holds k j) 256) 8) 8 ≡ true
unfolding every_below test_bit clear_bit bool_eq
clear_table = refl

pub test_bit-clear_bit :
    (b k j : ℕ)
    → b < 256
    → k < 8
    → j < 8
    → test_bit (clear_bit b k) j ≡ (if k == j then false else test_bit b j)
test_bit-clear_bit b k j hb hk hj =
    let row =
      every_below-lt (λ i. every_below (λ j. every_below (clear_holds i j) 256) 8) 8 hk
        clear_table in
    let column = every_below-lt (λ i. every_below (clear_holds k i) 256) 8 hj row in
    bool_eq-eq _ _ (every_below-lt (clear_holds k j) 256 hb column)
