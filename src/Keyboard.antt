-- ===== src/Keyboard.antt =====
-- kernel/keyboard.c: scan codes into characters, and the characters into the ring of CharQueue.
pub mod History
mod Tests
use rdix.Common.{
  ℕ, ◌+◌, ◌-◌, ◌*◌, ◌/◌, ◌%◌, Bool, true, false, ◌&&◌, ◌||◌, not, Option, none, some, List, [], ◌∷◌,
  Outcome, ok, ◌>>=◌, ◌>>◌, assert, ltb, leb, ◌==◌, if◌then◌else◌, length, get_or, set, replicate,
}
use rdix.CharQueue.{CharQueue, que_isempty, que_isfull, que_push, que_pop}
use rdix.Tasks.{Kernel, nodes}
use rdix.Tasks.Sched.{unblock}

-- The columns 0 and 1 of `keymap`, by scan code: the character without shift and with it, 0 for a
-- key without a character.
abbrev pub keymap : List (ℕ × ℕ)
keymap =
    (0, 0)
    ∷ (27, 27)
    ∷ (49, 33)
    ∷ (50, 64)
    ∷ (51, 35)
    ∷ (52, 36)
    ∷ (53, 37)
    ∷ (54, 94)
    ∷ (55, 38)
    ∷ (56, 42)
    ∷ (57, 40)
    ∷ (48, 41)
    ∷ (45, 95)
    ∷ (61, 43)
    ∷ (8, 8)
    ∷ (9, 9)
    ∷ (113, 81)
    ∷ (119, 87)
    ∷ (101, 69)
    ∷ (114, 82)
    ∷ (116, 84)
    ∷ (121, 89)
    ∷ (117, 85)
    ∷ (105, 73)
    ∷ (111, 79)
    ∷ (112, 80)
    ∷ (91, 123)
    ∷ (93, 125)
    ∷ (10, 10)
    ∷ (0, 0)
    ∷ (97, 65)
    ∷ (115, 83)
    ∷ (100, 68)
    ∷ (102, 70)
    ∷ (103, 71)
    ∷ (104, 72)
    ∷ (106, 74)
    ∷ (107, 75)
    ∷ (108, 76)
    ∷ (59, 58)
    ∷ (39, 34)
    ∷ (96, 126)
    ∷ (0, 0)
    ∷ (92, 124)
    ∷ (122, 90)
    ∷ (120, 88)
    ∷ (99, 67)
    ∷ (118, 86)
    ∷ (98, 66)
    ∷ (110, 78)
    ∷ (109, 77)
    ∷ (44, 60)
    ∷ (46, 62)
    ∷ (47, 63)
    ∷ (0, 0)
    ∷ (42, 42)
    ∷ (0, 0)
    ∷ (32, 32)
    ∷ (0, 0)
    ∷ (0, 0)
    ∷ (0, 0)
    ∷ (0, 0)
    ∷ (0, 0)
    ∷ (0, 0)
    ∷ (0, 0)
    ∷ (0, 0)
    ∷ (0, 0)
    ∷ (0, 0)
    ∷ (0, 0)
    ∷ (0, 0)
    ∷ (0, 0)
    ∷ (55, 0)
    ∷ (56, 0)
    ∷ (57, 0)
    ∷ (45, 45)
    ∷ (52, 0)
    ∷ (53, 0)
    ∷ (54, 0)
    ∷ (43, 43)
    ∷ (49, 0)
    ∷ (50, 0)
    ∷ (51, 0)
    ∷ (48, 0)
    ∷ (46, 127)
    ∷ (0, 0)
    ∷ (0, 0)
    ∷ (0, 0)
    ∷ (0, 0)
    ∷ (0, 0)
    ∷ (0, 0)
    ∷ (0, 0)
    ∷ (0, 0)
    ∷ (0, 0)
    ∷ (0, 0)
    ∷ (0, 0)
    ∷ (0, 0)
    ∷ []

abbrev pub key_shift_l : ℕ
key_shift_l = 42

abbrev pub key_shift_r : ℕ
key_shift_r = 54

abbrev pub key_capslock : ℕ
key_capslock = 58

abbrev pub key_print_screen : ℕ
key_print_screen = 95

pub data Arrow : Type 0 where
  up down left right : Arrow

-- The columns 2 and 3 of `keymap`, which keys are down, plain and extended; and the two states.
pub record Keys : Type 0 where
  pub pressed : List Bool
  pub pressed_ext : List Bool
  pub capslock_state : Bool
  pub extcode_state : Bool

-- The state of `keyboard_init`.
abbrev pub no_keys : Keys
no_keys = record {
  pressed = replicate 96 false;
  pressed_ext = replicate 96 false;
  capslock_state = false;
  extcode_state = false;
}

-- What a scan code leads to.
pub data Action : Type 0 where
  nothing : Action
  arrow : Arrow → Action
  typed : ℕ → Action

-- `keymap[key][ext] = down`
unfoldable pub set_key : Bool → ℕ → Bool → Keys → Keys
set_key true key is_down s = record s { pressed_ext = set s.pressed_ext key is_down }
set_key false key is_down s = record s { pressed = set s.pressed key is_down }

-- KEY_PAD_8, KEY_PAD_2, KEY_PAD_4 and KEY_PAD_6
unfoldable pub arrow_of : ℕ → Action
arrow_of scancode =
    if scancode == 72
    then arrow up
    else if scancode == 80
    then arrow down
    else if scancode == 75
    then arrow left
    else if scancode == 77
    then arrow right
    else nothing

abbrev pub shift_state : Keys → Bool
shift_state s = get_or s.pressed key_shift_l false || get_or s.pressed key_shift_r false

abbrev pub xor : Bool → Bool → Bool
xor true b = not b
xor false b = b

-- `keymap[scancode][shift]`
unfoldable pub char_of : ℕ → Bool → Action
char_of scancode shift =
    let ch = get_or keymap scancode (0, 0) in
    let c = if shift then ch.1 else ch.0 in if c == 0 then nothing else typed c

-- A key that goes down: an arrow, or the switch of caps lock, and a character.
unfoldable pub key_down : Bool → ℕ → Keys → Keys × Action
unfolding set_key arrow_of char_of
key_down true scancode s = (set_key true scancode true s, arrow_of scancode)
key_down false scancode s =
    let s1 = set_key false scancode true s in
    let s2 =
      if scancode == key_capslock
      then record s1 { capslock_state = not s1.capslock_state }
      else s1 in
    (s2, char_of scancode (xor s2.capslock_state (shift_state s2)))

-- `keyboard_hander` up to the character, on a byte from the port.
unfoldable pub scan : ℕ → Keys → Keys × Action
unfolding set_key key_down
scan scancode s =
    let ext = s.extcode_state in
    let s1 = record s { extcode_state = false } in
    if scancode == 224
    then (record s { extcode_state = true }, nothing)
    else if ltb key_print_screen (scancode % 128)
    then (s1, nothing)
    else if leb 128 scancode
    then (set_key ext (scancode % 128) false s1, nothing)
    else key_down ext scancode s1

-- `if (!list_isempty(waiter)) unblock(waiter->end.next);`
unfoldable pub wake_reader : ℕ → Kernel → Outcome Kernel
wake_reader waiter k = elim (nodes waiter k) [ [] ↦ ok k | pid ∷ others ↦ unblock (some pid) k ]

-- The handler: the keys, the ring and the tasks that it leaves, and the arrow for the console.
unfoldable pub keyboard_hander :
    ℕ → ℕ → Keys → CharQueue → Kernel → Outcome ((Keys × Option Arrow) × CharQueue × Kernel)
unfolding scan wake_reader
keyboard_hander waiter scancode s key_buf k = elim (scan scancode s).1 [
  | nothing ↦ ok (((scan scancode s).0, none), key_buf, k)
  | arrow a ↦ ok (((scan scancode s).0, some a), key_buf, k)
  | typed ch ↦ (do
    assert (not (que_isfull key_buf))
    key_buf' ← que_push key_buf ch
    k' ← wake_reader waiter k
    ok (((scan scancode s).0, none), key_buf', k'))
]
