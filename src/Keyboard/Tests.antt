-- ===== src/Keyboard/Tests.antt =====
-- Runs of kernel/keyboard.c.
use rdix.Common.{ℕ, ◌≡◌, refl, List, [], ◌∷◌, arith}
use rdix.Keyboard.{typed, set_key, char_of, key_down, scan}
use rdix.Keyboard.History.{state_after, Reflects, state_after-Reflects}

-- caps lock down and up, shift down; newest first
abbrev codes : List ℕ
codes = 42 ∷ 186 ∷ 58 ∷ []

-- with caps lock on and shift held, the key 0x1E is `a`
typed_test : (scan 30 (state_after codes)).1 ≡ typed b'a'
unfolding scan key_down set_key char_of state_after
typed_test = refl

state_after-Reflects_example : Reflects (state_after codes) codes
state_after-Reflects_example =
    state_after-Reflects codes (omega arith, (omega arith, (omega arith, tt)))
