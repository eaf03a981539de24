-- ===== src/Console/Writing.antt =====
-- The characters that console_put_char writes.
use rdix.Common.{
  ℕ, ◌+◌, ◌<◌, ◌≡◌, inl, inr, refl, ap, true, false, arith, Outcome, ok, panic, ◌>>=◌, ◌==◌,
  Bool-cases, ==→eq, u16,
}
use rdix.Console.{
  Screen, blank, word_block, put_word, write_cell, proc_lf, proc_table, put_plain, backspace,
  console_put_char,
}
use rdix.Console.Scrolling.{
  move_to-Followed, proc_lf-Moves, proc_table-Moves, OnScreen, write_cell-ok, Moves,
}

-- Text goes to where the cursor is.
put_plain-Moves : (ch : ℕ) (c : Screen) → OnScreen c → Moves (put_plain ch c)
unfolding put_plain
put_plain-Moves ch c s =
    let next = u16 (c.cposition + 1) in
    let c1 = record c { vedio = put_word c.vedio c.cposition (word_block c.color ch) } in
    let s1 : OnScreen c1 = record {
      row = s.row;
      inside = s.inside;
      above = s.above;
      below = s.below;
      behind = s.behind;
    } in
    let (c', run, f) =
      move_to-Followed c1 s1 next true (omega (arith, s.inside, s.below))
        (omega (arith, s.inside, s.above, s.below)) in
    (
      record c1 { cposition = next },
      c',
      next,
      rw (write_cell-ok c.cposition (word_block c.color ch) c (omega (arith, s.inside, s.below)))
          run,
      f,
    )

backspace-Moves : (c : Screen) → OnScreen c → 0 < c.cposition → Moves (backspace c)
unfolding backspace
backspace-Moves c s some_before =
    let back = u16 (c.cposition + 65535) in
    let c1 = record c { vedio = put_word c.vedio back blank } in
    let s1 : OnScreen c1 = record {
      row = s.row;
      inside = s.inside;
      above = s.above;
      below = s.below;
      behind = s.behind;
    } in
    let (c', run, f) =
      move_to-Followed c1 s1 back false (omega (arith, s.inside, s.below))
        (omega (arith, s.inside, s.above, s.below)) in
    (
      record c1 { cposition = back },
      c',
      back,
      rw (write_cell-ok back blank c (omega (arith, s.inside, s.below))) run,
      f,
    )

-- `end = CPosition;` behind a move
settled :
    (run : Outcome Screen)
    → Moves run
    → (c' : Screen) × (◌>>=◌ {B = Screen} run (λ c. ok (record c { last = c.cposition })) ≡ ok c')
      × OnScreen c'
settled run (before, c', position, e, f) = (
  record c' { last = c'.cposition },
  ap (λ r. ◌>>=◌ {B = Screen} r (λ c. ok (record c { last = c.cposition }))) e,
  record { row = f.row; inside = f.inside; above = f.above; below = f.below; behind = omega arith },
)

-- With the cursor on the screen console_put_char returns, writes inside the video memory only, and
-- leaves the cursor on the screen, for every character but a backspace at the start of the memory.
pub console_put_char-OnScreen :
    (ch : ℕ) (c : Screen)
    → OnScreen c
    → (ch ≡ 8 → 0 < c.cposition)
    → (c' : Screen) × (console_put_char ch c ≡ ok c') × OnScreen c'
unfolding console_put_char
console_put_char-OnScreen ch c s start = elim (Bool-cases (ch == 10)) [
  | inl b ↦ rw b (settled (proc_lf c) (proc_lf-Moves c s))
  | inr b ↦ elim (Bool-cases (ch == 9)) [
    | inl b' ↦ rw (b, b') (settled (proc_table c) (proc_table-Moves c s))
    | inr b' ↦ elim (Bool-cases (ch == 8)) [
      | inl b'' ↦
          rw (b, b', b'') (settled (backspace c) (backspace-Moves c s (start (==→eq ch 8 b''))))
      | inr b'' ↦ rw (b, b', b'') (settled (put_plain ch c) (put_plain-Moves ch c s))
    ]
  ]
]

-- A backspace with the cursor at position 0 writes outside the video memory.
pub backspace-panic : (c : Screen) → c.cposition ≡ 0 → console_put_char 8 c ≡ panic
unfolding console_put_char backspace write_cell
backspace-panic c e = rw e refl
