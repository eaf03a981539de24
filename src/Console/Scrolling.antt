-- ===== src/Console/Scrolling.antt =====
-- The cursor stays on the screen and the writes stay in the video memory.
use rdix.Common.{
  ℕ, ◌+◌, ◌-◌, ◌*◌, ◌/◌, ◌%◌, ◌≤◌, ◌<◌, ◌≡◌, ◌⊎◌, inl, inr, refl, Bool, true, false, arith, Outcome,
  ok, ltb, leb, Bool-cases, lt→ltb, u16,
}
use rdix.Console.{
  Screen, screen_row_count, full_screen_size, vedio_words, put_word, write_cell,
  set_screen_position, next_row, blank_words, erase_row, scroll_down, scroll_up, follow_down,
  follow_up, set_cursor_position, move_to, proc_lf, proc_table,
}

-- The screen starts at a row and lies in the memory, and the cursor is on it, at the last character
-- or before.
pub record OnScreen (c : Screen) : Type 0 where
  pub row : c.sposition % 80 ≡ 0
  pub inside : c.sposition ≤ 14240
  pub above : c.sposition ≤ c.cposition
  pub below : c.cposition < c.sposition + 2000
  pub behind : c.cposition ≤ c.last

-- The same positions, whatever else has changed.
abbrev SamePlaces : Screen → Screen → Type 0
SamePlaces c c' = (c'.cposition ≡ c.cposition) × (c'.sposition ≡ c.sposition) × (c'.last ≡ c.last)

erase_row-ok :
    (clean : Bool) (c : Screen)
    → c.sposition ≤ 14240
    → (c' : Screen) × (erase_row clean c ≡ ok c') × SamePlaces c c'
unfolding erase_row
erase_row-ok false c inside = (c, refl, (refl, refl, refl))
erase_row-ok true c inside =
    let fits : leb (c.sposition + full_screen_size - screen_row_count + screen_row_count)
          vedio_words
        ≡ true =
      ground arith in
    (
      record c {
        vedio =
            blank_words (c.sposition + full_screen_size - screen_row_count) screen_row_count
              c.vedio;
      },
      rw fits refl,
      (refl, refl, refl),
    )

set_screen_position-ok :
    (position : ℕ) (c : Screen)
    → position % 80 ≡ 0
    → set_screen_position position c ≡ ok (record c { screen_reg = position })
unfolding set_screen_position
set_screen_position-ok position c row = rw row refl

next_row-places :
    (c : Screen)
    → c.sposition % 80 ≡ 0
    → c.sposition ≤ 14240
    → ((next_row c).sposition % 80 ≡ 0)
      × ((next_row c).sposition ≤ 14240)
      × ((((next_row c).sposition ≡ c.sposition + 80)
            × ((next_row c).cposition ≡ c.cposition)
            × ((next_row c).last ≡ c.last))
          ⊎ (((next_row c).sposition ≡ 0)
              × ((next_row c).cposition ≡ 1920)
              × ((next_row c).last ≡ 1920)))
unfolding next_row
next_row-places c row inside =
    elim (Bool-cases
      (ltb ((c.sposition + full_screen_size) * 2) (vedio_words * 2 - screen_row_count * 4))) [
        | inl b ↦
            let room : c.sposition < 14224 = ground (arith, b) in
            rw b (omega arith, omega arith, inl (omega arith, refl, refl))
        | inr b ↦ rw b (omega arith, omega arith, inr (refl, refl, refl))
      ]

scroll_down-ok :
    (clean : Bool) (c : Screen)
    → c.sposition % 80 ≡ 0
    → c.sposition ≤ 14240
    → (c' : Screen) × (scroll_down clean c ≡ ok c') × SamePlaces (next_row c) c'
unfolding scroll_down
scroll_down-ok clean c row inside =
    let (row', inside', how) = next_row-places c row inside in
    let (c', run, same) =
      erase_row-ok clean (record (next_row c) { screen_reg = (next_row c).sposition }) inside' in
    (c', rw (set_screen_position-ok (next_row c).sposition (next_row c) row') run, same)

-- What a move of the cursor leaves: the cursor is on the screen, and not behind `last` if it was
-- not before the move.
pub record Followed (c : Screen) (position : ℕ) (c' : Screen) : Type 0 where
  pub row : c'.sposition % 80 ≡ 0
  pub inside : c'.sposition ≤ 14240
  pub above : c'.sposition ≤ c'.cposition
  pub below : c'.cposition < c'.sposition + 2000
  pub behind : position ≤ c.last → c'.cposition ≤ c'.last

-- One scroll down is enough for a position less than a row behind the screen.
follow_down-ok :
    (position : ℕ) (clean : Bool) (c : Screen)
    → c.sposition % 80 ≡ 0
    → c.sposition ≤ 14240
    → c.cposition ≡ position
    → position < c.sposition + 2080
    → c.sposition ≤ position + 80
    → (c' : Screen) × (follow_down position clean c ≡ ok (c'.cposition, c'))
      × (c'.sposition % 80 ≡ 0)
      × (c'.sposition ≤ 14240)
      × (c'.cposition < c'.sposition + 2000)
      × (c'.sposition ≤ c'.cposition + 80)
      × (position ≤ c.last → c'.cposition ≤ c'.last)
unfolding follow_down scroll_down erase_row set_screen_position next_row
follow_down-ok position clean c row inside here below above =
    elim (Bool-cases (leb (c.sposition + full_screen_size) position)) [
      | inl b ↦
          let (row', inside', how) = next_row-places c row inside in
          let (c', run, (pos, start, stop)) = scroll_down-ok clean c row inside in
          let far : c.sposition + 2000 ≤ position = ground (arith, b) in
          let found : follow_down position clean c ≡ ok (c'.cposition, c') = rw (b, run) refl in
          elim how [
            | inl (moved, kept, last) ↦
                (c', found, omega arith, omega arith, omega arith, omega arith, λ h. omega arith)
            | inr (moved, kept, last) ↦
                (c', found, omega arith, omega arith, omega arith, omega arith, λ h. omega arith)
          ]
      | inr b ↦
          (c, rw (b, here) refl, row, inside, ground (arith, b), omega arith, λ h. omega arith)
    ]

follow_up-ok :
    (c : Screen)
    → c.sposition % 80 ≡ 0
    → c.sposition ≤ 14240
    → c.cposition < c.sposition + 2000
    → c.sposition ≤ c.cposition + 80
    → (c' : Screen) × (follow_up c.cposition c ≡ ok c')
      × (c'.sposition % 80 ≡ 0)
      × (c'.sposition ≤ 14240)
      × (c'.sposition ≤ c'.cposition)
      × (c'.cposition < c'.sposition + 2000)
      × (c'.cposition ≡ c.cposition)
      × (c'.last ≡ c.last)
unfolding follow_up scroll_up set_screen_position
follow_up-ok c row inside below above = elim (Bool-cases (ltb c.cposition c.sposition)) [
  | inl b ↦
      let back : 80 ≤ c.sposition = ground (arith, b) in
      let some_rows : ltb 0 c.sposition ≡ true = lt→ltb 0 c.sposition (omega arith) in
      let row' : (c.sposition - screen_row_count) % 80 ≡ 0 = omega arith in
      (
        record c {
          sposition = c.sposition - screen_row_count;
          screen_reg = c.sposition - screen_row_count;
        },
        rw (b, row, some_rows, row') refl,
        row',
        omega arith,
        ground (arith, b),
        ground (arith, b),
        refl,
        refl,
      )
  | inr b ↦ (c, rw b refl, row, inside, ground (arith, b), below, refl, refl)
]

-- A cursor that is moved by less than a row off the screen is followed by the screen.
pub set_cursor_position-Followed :
    (position : ℕ) (clean : Bool) (c : Screen)
    → c.sposition % 80 ≡ 0
    → c.sposition ≤ 14240
    → c.cposition ≡ position
    → position < c.sposition + 2080
    → c.sposition ≤ position + 80
    → (c' : Screen) × (set_cursor_position position clean c ≡ ok c') × Followed c position c'
unfolding set_cursor_position
set_cursor_position-Followed position clean c row inside here below above =
    let (c1, down, row1, inside1, below1, above1, behind1) =
      follow_down-ok position clean c row inside here below above in
    let (c2, up, row2, inside2, above2, below2, same, last) =
      follow_up-ok c1 row1 inside1 below1 above1 in
    (
      record c2 { cursor_reg = c1.cposition },
      rw down (rw up refl),
      record {
        row = row2;
        inside = inside2;
        above = above2;
        below = below2;
        behind = λ h. omega (arith, behind1 h, same, last);
      },
    )

pub write_cell-ok :
    (at w : ℕ) (c : Screen)
    → at < vedio_words
    → write_cell at w c ≡ ok (record c { vedio = put_word c.vedio at w })
unfolding write_cell
write_cell-ok at w c h = rw (lt→ltb at vedio_words h) refl

-- a move that ends on the screen
abbrev pub Moves : Outcome Screen → Type 0
Moves run = (before c' : Screen) × (position : ℕ) × (run ≡ ok c') × Followed before position c'

module _ (c : Screen) (s : OnScreen c) where
  pub move_to-Followed :
      (position : ℕ) (clean : Bool)
      → position < c.sposition + 2080
      → c.sposition ≤ position + 80
      → (c' : Screen) × (move_to position clean c ≡ ok c')
        × Followed (record c { cposition = position }) position c'
  move_to-Followed position clean below above =
      set_cursor_position-Followed position clean (record c { cposition = position }) s.row s.inside
        refl below above

  pub proc_lf-Moves : Moves (proc_lf c)
  unfolding proc_lf
  proc_lf-Moves =
      let next = u16 (u16 (c.cposition / screen_row_count + 1) * screen_row_count) in
      let (c', run, f) =
        move_to-Followed next true (omega (arith, s.row, s.inside, s.above, s.below))
          (omega (arith, s.row, s.inside, s.above, s.below)) in
      (record c { cposition = next }, c', next, run, f)

  pub proc_table-Moves : Moves (proc_table c)
  unfolding proc_table
  proc_table-Moves =
      let next = u16 ((c.cposition + 4) / 4 * 4) in
      let (c', run, f) =
        move_to-Followed next true (omega (arith, s.inside, s.above, s.below))
          (omega (arith, s.inside, s.above, s.below)) in
      (record c { cposition = next }, c', next, run, f)
