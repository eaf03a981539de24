-- ===== src/Console.antt =====
-- kernel/console.c: the cursor, the scrolling and the characters of the text console. The video
-- memory is 16384 words from 0xb8000 on; a write outside it is a fault.
pub mod Colors
pub mod Scrolling
pub mod Writing
pub mod Arrows
pub mod Strings
mod Tests
use rdix.Common.{
  ℕ, zero, suc, ◌+◌, ◌-◌, ◌*◌, ◌/◌, ◌%◌, Bool, true, false, List, [], ◌∷◌, Outcome, ok, panic,
  ◌>>=◌, ◌>>◌, assert, ltb, leb, ◌==◌, if◌then◌else◌, u8, u16,
}
use rdix.Keyboard.{Arrow, up, down, left, right}

abbrev pub screen_row_count : ℕ
screen_row_count = 80

abbrev pub full_screen_size : ℕ
full_screen_size = 2000

abbrev pub vedio_words : ℕ
vedio_words = 16384

abbrev pub blank : ℕ
blank = 1824

abbrev pub word_type_default : ℕ
word_type_default = 7

-- `end` is `last` here; the registers are those of the video adapter.
pub record Screen : Type 0 where
  pub cposition : ℕ
  pub sposition : ℕ
  pub color : ℕ
  pub last : ℕ
  pub vedio : ℕ → ℕ
  pub cursor_reg : ℕ
  pub screen_reg : ℕ

abbrev pub put_word : (ℕ → ℕ) → ℕ → ℕ → ℕ → ℕ
put_word vedio at w i = if i == at then w else vedio i

-- `vedio[at] = w`
unfoldable pub write_cell : ℕ → ℕ → Screen → Outcome Screen
write_cell at w c = assert (ltb at vedio_words) >> ok (record c { vedio = put_word c.vedio at w })

unfoldable pub set_screen_position : ℕ → Screen → Outcome Screen
set_screen_position position c =
    assert (position % 80 == 0) >> ok (record c { screen_reg = position })

-- Words from `at` on are blanked.
unfoldable pub blank_words : ℕ → ℕ → (ℕ → ℕ) → ℕ → ℕ
blank_words at n vedio i = if leb at i then (if ltb i (at + n) then blank else vedio i) else vedio i

-- The `memcpy` of `scroll_down`: all rows of the screen but the first move to the start of the
-- memory.
unfoldable pub move_rows : ℕ → (ℕ → ℕ) → ℕ → ℕ
move_rows sposition vedio i =
    if ltb i (full_screen_size - screen_row_count)
    then vedio (sposition + screen_row_count + i)
    else vedio i

-- The first half of `scroll_down`: the screen goes down by a row, or starts again at the top of the
-- memory.
unfoldable pub next_row : Screen → Screen
unfolding move_rows
next_row c =
    if ltb ((c.sposition + full_screen_size) * 2) (vedio_words * 2 - screen_row_count * 4)
    then record c { sposition = u16 (c.sposition + screen_row_count) }
    else record c {
      vedio = move_rows c.sposition c.vedio;
      sposition = 0;
      cposition = full_screen_size - screen_row_count;
      last = full_screen_size - screen_row_count;
    }

-- `if (clean)`: the last row is erased.
unfoldable pub erase_row : Bool → Screen → Outcome Screen
unfolding blank_words
erase_row false c = ok c
erase_row true c =
    let at = c.sposition + full_screen_size - screen_row_count in
    assert (leb (at + screen_row_count) vedio_words)
    >> ok (record c { vedio = blank_words at screen_row_count c.vedio })

unfoldable pub scroll_down : Bool → Screen → Outcome Screen
unfolding next_row erase_row set_screen_position
scroll_down clean c = do
  let c1 = next_row c
  c2 ← set_screen_position c1.sposition c1
  erase_row clean c2

unfoldable pub scroll_up : Screen → Outcome Screen
unfolding set_screen_position
scroll_up c = do
  assert (c.sposition % screen_row_count == 0)
  let c1 = if ltb 0 c.sposition then record c { sposition = c.sposition - screen_row_count } else c
  set_screen_position c1.sposition c1

-- The two tests of `set_cursor_position`; the first takes the position from `scroll_down`.
unfoldable pub follow_down : ℕ → Bool → Screen → Outcome (ℕ × Screen)
unfolding scroll_down
follow_down position clean c =
    if leb (c.sposition + full_screen_size) position
    then (do c' ← scroll_down clean c; ok (c'.cposition, c'))
    else ok (position, c)

unfoldable pub follow_up : ℕ → Screen → Outcome Screen
unfolding scroll_up
follow_up position c = if ltb position c.sposition then scroll_up c else ok c

unfoldable pub set_cursor_position : ℕ → Bool → Screen → Outcome Screen
set_cursor_position position clean c = do
  (p, c1) ← follow_down position clean c
  c2 ← follow_up p c1
  ok (record c2 { cursor_reg = p })

-- the variables that `console_clean` sets
abbrev pub fresh_screen : (ℕ → ℕ) → Screen
fresh_screen vedio = record {
  cposition = 0;
  sposition = 0;
  color = word_type_default;
  last = 0;
  vedio = vedio;
  cursor_reg = 0;
  screen_reg = 0;
}

unfoldable pub console_clean : (ℕ → ℕ) → Outcome Screen
unfolding set_screen_position set_cursor_position blank_words
console_clean vedio = do
  c1 ← set_screen_position 0 (fresh_screen vedio)
  c2 ← set_cursor_position 0 false c1
  ok (record c2 { vedio = blank_words 0 full_screen_size c2.vedio })

-- The position is stored, and then followed.
abbrev pub move_to : ℕ → Bool → Screen → Outcome Screen
move_to position clean c = set_cursor_position position clean (record c { cposition = position })

unfoldable pub proc_lf : Screen → Outcome Screen
proc_lf c = move_to (u16 (u16 (c.cposition / screen_row_count + 1) * screen_row_count)) true c

unfoldable pub proc_table : Screen → Outcome Screen
proc_table c = move_to (u16 ((c.cposition + 4) / 4 * 4)) true c

-- `(_color << 8) | ch`: a char from 128 on is negative, and fills the colour with ones.
abbrev pub word_block : ℕ → ℕ → ℕ
word_block color ch = if ltb ch 128 then color * 256 + ch else 65280 + ch

unfoldable pub put_plain : ℕ → Screen → Outcome Screen
put_plain ch c = do
  c1 ← write_cell c.cposition (word_block c.color ch) c
  move_to (u16 (c.cposition + 1)) true c1

unfoldable pub backspace : Screen → Outcome Screen
backspace c = do
  let position = u16 (c.cposition + 65535)
  c1 ← write_cell position blank c
  move_to position false c1

unfoldable pub console_put_char : ℕ → Screen → Outcome Screen
console_put_char ch c = do
  c' ←
      (if ch == 10
        then proc_lf c
        else if ch == 9
        then proc_table c
        else if ch == 8
        then backspace c
        else put_plain ch c)
  ok (record c' { last = c'.cposition })

unfoldable pub keyboard_arrow : Arrow → Screen → Outcome Screen
keyboard_arrow down c =
    if leb (c.cposition + screen_row_count) c.last
    then move_to (u16 (c.cposition + screen_row_count)) false c
    else move_to c.last false c
keyboard_arrow up c =
    if leb screen_row_count c.cposition
    then move_to (c.cposition - screen_row_count) false c
    else ok c
keyboard_arrow left c = if leb 1 c.cposition then move_to (c.cposition - 1) false c else ok c
keyboard_arrow right c =
    if leb (c.cposition + 1) c.last then move_to (u16 (c.cposition + 1)) false c else ok c
