-- ===== src/Console/Tests.antt =====
-- Runs of the console, and concrete instances of its theorems.
use rdix.Common.{ℕ, ◌≡◌, refl, [], ◌∷◌, Outcome, ok, panic, ◌>>=◌, arith, take}
use rdix.Common.Bytes.{set_bit}
use rdix.Format.{skip_atoi, is_digit}
use rdix.Console.{
  Screen, fresh_screen, blank, console_put_char, set_screen_position, set_cursor_position,
  follow_down, follow_up, scroll_down, scroll_up, next_row, erase_row, proc_lf, word_type_default,
}
use rdix.Console.Colors.{
  color_proc, at_sequence, color_sequence, copy_arguments, general_part, general_color, fore_part,
  back_part, color_type,
}
use rdix.Console.Scrolling.{OnScreen}
use rdix.Console.Writing.{console_put_char-OnScreen, backspace-panic}
use rdix.Console.Strings.{
  console_put_string, string_loop, skip_colors, put_all, Plain, console_put_string-Plain,
}

abbrev empty : ℕ → ℕ
empty i = blank

abbrev fresh : Screen
fresh = fresh_screen empty

abbrev where_is : Outcome Screen → Outcome (ℕ × ℕ × ℕ)
where_is run = run >>= λ c. ok (c.cposition, c.sposition, c.last)

-- A line feed in the last row of the screen scrolls it.
lf_scrolls :
    where_is (console_put_char 10 (record fresh { cposition = 1930; last = 1930 }))
    ≡ ok (2000, 80, 2000)
unfolding console_put_char proc_lf set_cursor_position follow_down follow_up scroll_down scroll_up
    next_row erase_row set_screen_position
lf_scrolls = refl

-- At the end of the memory the screen starts again at its top.
lf_starts_again :
    where_is
      (console_put_char 10 (record fresh { cposition = 16230; sposition = 14240; last = 16230 }))
    ≡ ok (1920, 0, 1920)
unfolding console_put_char proc_lf set_cursor_position follow_down follow_up scroll_down scroll_up
    next_row erase_row set_screen_position
lf_starts_again = refl

-- ESC [ 1 ; 31 ; 44 ] is bright red on blue.
red_on_blue :
    color_proc 7 (27 ∷ 91 ∷ 49 ∷ 59 ∷ 51 ∷ 49 ∷ 59 ∷ 52 ∷ 52 ∷ 93 ∷ 65 ∷ []) ≡ ok (28, 65 ∷ [])
unfolding color_proc at_sequence color_sequence copy_arguments general_part general_color fore_part
    back_part color_type skip_atoi is_digit set_bit
red_on_blue = refl

-- Eight characters before the `]` leave no room for the NUL.
eight_arguments :
    color_proc 7 (27 ∷ 91 ∷ 49 ∷ 59 ∷ 51 ∷ 49 ∷ 59 ∷ 48 ∷ 52 ∷ 52 ∷ 93 ∷ 65 ∷ []) ≡ panic
unfolding color_proc at_sequence color_sequence copy_arguments
eight_arguments = refl

-- A text that ends behind a colour sequence is read behind its end.
ends_in_color : console_put_string 9 (27 ∷ 91 ∷ 93 ∷ []) 100 fresh ≡ panic
unfolding console_put_string string_loop skip_colors color_proc at_sequence color_sequence
    copy_arguments general_part general_color skip_atoi
ends_in_color = refl

at_80 : Screen
at_80 = record fresh { cposition = 80; last = 170 }

at_80-OnScreen : OnScreen at_80
unfolding at_80
at_80-OnScreen = record {
  row = refl;
  inside = omega arith;
  above = omega arith;
  below = omega arith;
  behind = omega arith;
}

console_put_char-OnScreen_example : (c' : Screen) × (console_put_char 8 at_80 ≡ ok c') × OnScreen c'
unfolding at_80
console_put_char-OnScreen_example =
    console_put_char-OnScreen 8 at_80 at_80-OnScreen (λ e. omega arith)

backspace-panic_example : console_put_char 8 fresh ≡ panic
backspace-panic_example = backspace-panic fresh refl

hi-Plain : Plain (72 ∷ 105 ∷ [])
unfolding Plain
hi-Plain = (ground arith, ground arith, (ground arith, ground arith, tt))

console_put_string-Plain_example :
    (c' : Screen) × (put_all (take 2 (72 ∷ 105 ∷ [])) at_80 ≡ ok c')
    × (console_put_string 4 (72 ∷ 105 ∷ []) 2 at_80 ≡ ok (record c' { color = word_type_default }))
    × OnScreen c'
console_put_string-Plain_example =
    console_put_string-Plain 4 (72 ∷ 105 ∷ []) 2 at_80 hi-Plain at_80-OnScreen (omega arith)
