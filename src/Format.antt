-- ===== src/Format.antt =====
-- kernel/vsprintf.c: numbers and format strings into text. A text is the list of its bytes, without
-- the NUL that ends it in memory. The bits of `flags` are the fields of a record.
pub mod Number
pub mod Template
pub mod Strings
mod Total
mod Printing
mod Tests
use mathlib.Core.List.{reverse}
use rdix.Common.{
  ℕ, zero, suc, ◌+◌, ◌-◌, ◌*◌, ◌/◌, ◌%◌, Bool, true, false, ◌&&◌, ◌||◌, not, Option, none, some,
  List, [], ◌∷◌, ◌++◌, Outcome, ok, panic, out_of_fuel, ◌>>=◌, ltb, leb, ◌==◌, if◌then◌else◌,
  length, u8, u32,
}
use rdix.Common.Int.{ℤ, pos, negsuc, ◌-ℤ◌, ◌+ℤ◌, is_negative, signed32}

pub record Flags : Type 0 where
  pub zeropad : Bool
  pub sign : Bool
  pub plus : Bool
  pub space : Bool
  pub left : Bool
  pub special : Bool
  pub small : Bool

abbrev pub no_flags : Flags
no_flags = record {
  zeropad = false;
  sign = false;
  plus = false;
  space = false;
  left = false;
  special = false;
  small = false;
}

unfoldable pub is_digit : ℕ → Bool
is_digit ch = leb b'0' ch && leb ch b'9'

-- The number at the head of the text, and the text behind it; `i` has been read.
unfoldable pub skip_atoi : ℕ → List ℕ → ℕ × List ℕ
unfolding is_digit
skip_atoi i [] = (i, [])
skip_atoi i (ch ∷ s) =
    let on = skip_atoi (u32 (i * 10 + ch - b'0')) s in if is_digit ch then on else (i, ch ∷ s)

-- `digit[d]`, or `small[d]`
unfoldable pub digit : Bool → ℕ → ℕ
digit small d = if ltb d 10 then b'0' + d else if small then b'a' + (d - 10) else b'A' + (d - 10)

-- The `while (num)` of `number`, which fills `tmp` from its lowest digit on. `room` is what is left
-- of `tmp[36]`; to write past it destroys the stack.
unfoldable pub digits_loop : ℕ → Bool → ℕ → ℕ → Outcome (List ℕ)
unfolding digit
digits_loop zero small base num = if num == 0 then ok [] else panic
digits_loop (suc room) small base num = elim (num == 0) [
  | true ↦ ok []
  | false ↦ digits_loop room small base (num / base) >>= λ tmp. ok (digit small (num % base) ∷ tmp)
]

unfoldable pub digits : Bool → ℕ → ℕ → Outcome (List ℕ)
unfolding digits_loop
digits small base num = if num == 0 then ok (b'0' ∷ []) else digits_loop 36 small base num

-- `while (size-- > 0) *str++ = c;`, with the size that is left.
unfoldable pub pad : ℕ → ℤ → List ℕ × ℤ
pad c (pos (suc n)) = let (s, size) = pad c (pos n) in (c ∷ s, size)
pad c (pos zero) = ([], negsuc 0)
pad c (negsuc n) = ([], negsuc (suc n))

-- `sign`, as the character or nothing. `num` is unsigned, so `num < 0` never holds.
unfoldable pub sign_chars : Flags → ℕ → List ℕ
sign_chars f num =
    if f.sign && ltb num 0
    then b'-' ∷ []
    else if f.plus
    then b'+' ∷ []
    else if f.space
    then b' ' ∷ []
    else []

-- what SPECIAL takes off the size, and what it writes
unfoldable pub special_size : Flags → ℕ → ℕ
special_size f base =
    if f.special then (if base == 16 then 2 else if base == 8 then 1 else 0) else 0

unfoldable pub special_chars : Flags → ℕ → List ℕ
special_chars f base = if f.special then b'0' ∷ (if base == 16 then b'x' ∷ [] else []) else []

-- The three loops that fill a field of which `size` is left: before the sign, before the digits and
-- behind them.
unfoldable pub field_pads : Flags → ℤ → List ℕ × List ℕ × List ℕ
unfolding pad
field_pads f size =
    let (blanks, size1) = if not (f.zeropad || f.left) then pad b' ' size else ([], size) in
    let c = if f.zeropad then b'0' else b' ' in
    let (fill, size2) = if not f.left then pad c size1 else ([], size1) in
    let (tail, _) = pad b' ' size2 in (blanks, fill, tail)

-- The text of the field; `tmp` holds the digits from the lowest on.
unfoldable pub layout : Flags → ℤ → List ℕ → List ℕ → List ℕ → List ℕ
unfolding field_pads
layout f size sign special tmp =
    let (blanks, fill, tail) = field_pads f size in
    blanks ++ (sign ++ (special ++ (fill ++ (reverse tmp ++ tail))))

-- A field that is adjusted to the left is not filled with zeroes.
unfoldable pub adjusted : Flags → Flags
adjusted flags = if flags.left then record flags { zeropad = false } else flags

-- The characters that `number` writes. `none` is its `return 0`. `precision` is not used.
unfoldable pub number : ℕ → ℕ → ℤ → ℤ → Flags → Outcome (Option (List ℕ))
number num base size precision flags =
    if ltb base 2 || ltb 36 base
    then ok none
    else digits (adjusted flags).small base num >>= λ tmp.
        let f = adjusted flags in
        let sign = sign_chars f num in
        let rest = size -ℤ length sign -ℤ special_size f base -ℤ length tmp in
        ok (some (layout f rest sign (special_chars f base) tmp))
