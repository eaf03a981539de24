-- ===== src/Console/Arrows.antt =====
-- The arrow keys keep the cursor on the screen.
use rdix.Common.{ℕ, ◌+◌, ◌-◌, ◌≤◌, ◌<◌, ◌≡◌, inl, inr, refl, false, arith, ok, leb, Bool-cases, u16}
use rdix.Keyboard.{Arrow, up, down, left, right}
use rdix.Console.{Screen, screen_row_count, keyboard_arrow, move_to}
use rdix.Console.Scrolling.{OnScreen, move_to-Followed}

-- a move to where the cursor may be
move_to-OnScreen :
    (c : Screen)
    → OnScreen c
    → (position : ℕ) → position < c.sposition + 2080
    → c.sposition ≤ position + 80
    → position ≤ c.last
    → (c' : Screen) × (move_to position false c ≡ ok c') × OnScreen c'
move_to-OnScreen c s position below above behind =
    let (c', run, f) = move_to-Followed c s position false below above in
    (
      c',
      run,
      record {
        row = f.row;
        inside = f.inside;
        above = f.above;
        below = f.below;
        behind = f.behind behind;
      },
    )

-- With the cursor on the screen and not behind the last character an arrow key returns, and leaves
-- the cursor so.
pub keyboard_arrow-OnScreen :
    (arrow : Arrow) (c : Screen)
    → OnScreen c
    → (c' : Screen) × (keyboard_arrow arrow c ≡ ok c') × OnScreen c'
unfolding keyboard_arrow
keyboard_arrow-OnScreen down c s = elim (Bool-cases (leb (c.cposition + screen_row_count) c.last)) [
  | inl b ↦
      let fits : c.cposition + 80 ≤ c.last = ground (arith, b) in
      rw b (
        move_to-OnScreen c s (u16 (c.cposition + 80)) (omega (arith, s.inside, s.below))
          (omega (arith, s.inside, s.above, s.below)) (omega (arith, fits)))
  | inr b ↦
      let near : c.last < c.cposition + 80 = ground (arith, b) in
      rw b (
        move_to-OnScreen c s c.last (omega (arith, s.below, near))
          (omega (arith, s.above, s.behind)) (omega arith))
]
keyboard_arrow-OnScreen up c s = elim (Bool-cases (leb screen_row_count c.cposition)) [
  | inl b ↦
      let room : 80 ≤ c.cposition = ground (arith, b) in
      rw b (
        move_to-OnScreen c s (c.cposition - 80) (omega (arith, s.below))
          (omega (arith, s.above, room)) (omega (arith, s.behind)))
  | inr b ↦ (c, rw b refl, s)
]
keyboard_arrow-OnScreen left c s = elim (Bool-cases (leb 1 c.cposition)) [
  | inl b ↦
      let room : 1 ≤ c.cposition = ground (arith, b) in
      rw b (
        move_to-OnScreen c s (c.cposition - 1) (omega (arith, s.below))
          (omega (arith, s.above, room)) (omega (arith, s.behind)))
  | inr b ↦ (c, rw b refl, s)
]
keyboard_arrow-OnScreen right c s = elim (Bool-cases (leb (c.cposition + 1) c.last)) [
  | inl b ↦
      let fits : c.cposition + 1 ≤ c.last = ground (arith, b) in
      rw b (
        move_to-OnScreen c s (u16 (c.cposition + 1)) (omega (arith, s.inside, s.below))
          (omega (arith, s.inside, s.above, s.below)) (omega (arith, fits)))
  | inr b ↦ (c, rw b refl, s)
]
