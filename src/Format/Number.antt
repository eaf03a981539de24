-- ===== src/Format/Number.antt =====
-- What `number` writes: the digits of the number, in a field that is exactly as wide as was asked
-- or as the text needs.
use rdix.Common.{
  ℕ, zero, suc, ◌+◌, ◌-◌, ◌*◌, ◌/◌, ◌%◌, ◌^◌, ◌≤◌, ◌<◌, ◌≡◌, ◌≢◌, ◌⊎◌, ◌∙◌, refl, sym, ap, inl, inr,
  Bool, true, false, some, List, [], ◌∷◌, ◌++◌, arith, ok, ltb, ◌==◌, if◌then◌else◌, le→ltb, ==→eq,
  ==→ne, Bool-cases, length, length-append,
}
use Prim.Native.Nat.{max}
use mathlib.Core.List.{reverse, reverse-append, reverse_aux, append_assoc}
use native.Mathlib.Nat.{pow-suc}
use rdix.Common.Int.{ℤ, pos, negsuc, pos_part, ◌-ℤ◌}
use rdix.Format.{
  Flags, digit, digits_loop, digits, pad, sign_chars, special_size, special_chars, field_pads,
  layout, adjusted, number,
}

-- what a character stands for as a digit
unfoldable pub digit_value : ℕ → ℕ
digit_value c = if ltb c b'A' then c - b'0' else if ltb c b'a' then c - b'A' + 10 else c - b'a' + 10

-- the number that digits stand for, the highest first, behind those that stand for `acc`
unfoldable pub read_digits : ℕ → ℕ → List ℕ → ℕ
read_digits base acc [] = acc
read_digits base acc (c ∷ cs) = read_digits base (acc * base + digit_value c) cs

digit_value-digit : (small : Bool) (d : ℕ) → d < 36 → digit_value (digit small d) ≡ d
unfolding digit_value digit
digit_value-digit true d h = ground arith
digit_value-digit false d h = ground arith

read_digits-snoc :
    (base acc : ℕ) (cs : List ℕ) (c : ℕ)
    → read_digits base acc (cs ++ (c ∷ [])) ≡ read_digits base acc cs * base + digit_value c
unfolding read_digits
read_digits-snoc base acc [] c = refl
read_digits-snoc base acc (x ∷ cs) c = read_digits-snoc base (acc * base + digit_value x) cs c

reverse-cons : (x : ℕ) (xs : List ℕ) → reverse (x ∷ xs) ≡ reverse xs ++ (x ∷ [])
reverse-cons x xs = reverse-append (x ∷ []) xs

div-lt-half : (num base k : ℕ) → 2 ≤ base → num < 2 * k → num / base < k
div-lt-half num base k h p = grind arith

div_mod_value : (num base : ℕ) → 2 ≤ base → num / base * base + num % base ≡ num
div_mod_value num base h = omega arith

-- The digits of a number that fits the room are written in `tmp`, and read back as it.
digits_loop-read :
    (small : Bool) (base room num : ℕ)
    → 2 ≤ base
    → base ≤ 36
    → num < 2 ^ room
    → (tmp : List ℕ) × (digits_loop room small base num ≡ ok tmp)
      × (read_digits base 0 (reverse tmp) ≡ num)
unfolding digits_loop
digits_loop-read small base zero num h k fits =
    let none_left : num ≡ 0 = omega arith in ([], rw none_left, unfold read_digits in sym none_left)
digits_loop-read small base (suc room) num h k fits = elim (Bool-cases (num == 0)) [
  | inl e ↦ ([], rw (e, digits_loop), unfold read_digits in sym (==→eq num 0 e))
  | inr e ↦
      let fits' = div-lt-half num base (2 ^ room) h (omega (arith, pow-suc 2 room)) in
      let (tmp, run, back) = digits_loop-read small base room (num / base) h k fits' in
      let d = digit small (num % base) in
      (
        d ∷ tmp,
        rw (e, digits_loop, run),
        rw
            (
              reverse-cons d tmp,
              read_digits-snoc base 0 (reverse tmp) d,
              back,
              digit_value-digit small (num % base) (omega arith),
            )
            (div_mod_value num base h),
      )
]

digits-read :
    (small : Bool) (base num : ℕ)
    → 2 ≤ base
    → base ≤ 36
    → num < 2 ^ 32
    → (tmp : List ℕ) × (digits small base num ≡ ok tmp)
      × (read_digits base 0 (reverse tmp) ≡ num)
      × (0 < length tmp)
unfolding digits
digits-read small base num h k fits = elim (Bool-cases (num == 0)) [
  | inl e ↦ (
    b'0' ∷ [],
    rw e,
    rw (==→eq num 0 e) (unfold read_digits digit_value in omega arith),
    omega arith,
  )
  | inr e ↦
      let (tmp, run, back) = digits_loop-read small base 36 num h k (omega arith) in
      (tmp, rw (e, run), back, some_digit tmp (λ z. ==→ne num 0 e (sym back ∙ z)))
]
  where
    some_digit : (tmp : List ℕ) → read_digits base 0 (reverse tmp) ≢ 0 → 0 < length tmp
    some_digit [] ne = absurd (ne (unfold read_digits in refl))
    some_digit (d ∷ tmp) ne = omega arith

length-pad :
    (c : ℕ) (size : ℤ) → (length (pad c size).0 ≡ pos_part size) × (pos_part (pad c size).1 ≡ 0)
unfolding pad
length-pad c (pos zero) = (refl, refl)
length-pad c (negsuc n) = (refl, refl)
length-pad c (pos (suc n)) = let (p, q) = length-pad c (pos n) in (ap suc p, q)

length-reverse_aux : (xs ys : List ℕ) → length (reverse_aux xs ys) ≡ length xs + length ys
length-reverse_aux [] ys = omega arith
length-reverse_aux (x ∷ xs) ys = omega (arith, length-reverse_aux xs (x ∷ ys))

length-reverse : (xs : List ℕ) → length (reverse xs) ≡ length xs
length-reverse xs = omega (arith, length-reverse_aux xs [])

-- The digits with what stands before and behind them, in a field of the width that is left.
record LaidOut (size : ℤ) (sign special digits out : List ℕ) : Type 0 where
  before : List ℕ
  after : List ℕ
  whole : out ≡ before ++ (digits ++ after)
  width : length out ≡ pos_part size + length sign + length special + length digits

field_pads-length :
    (f : Flags) (size : ℤ)
    → let (blanks, fill, tail) = field_pads f size in
      length blanks + length fill + length tail ≡ pos_part size
unfolding field_pads
field_pads-length f size = elim (Bool-cases f.left) [
  | inl l ↦ elim (Bool-cases f.zeropad) [
    | inl z ↦ rw (l, z) (omega (arith, (length-pad b' ' size).0))
    | inr z ↦ rw (l, z) (omega (arith, (length-pad b' ' size).0))
  ]
  | inr l ↦ elim (Bool-cases f.zeropad) [
    | inl z ↦
        let p = length-pad b'0' size in
        rw (l, z) (omega (arith, p.0, p.1, (length-pad b' ' (pad b'0' size).1).0))
    | inr z ↦
        let p = length-pad b' ' size in
        let q = length-pad b' ' (pad b' ' size).1 in
        rw (l, z)
          (omega (arith, p.0, p.1, q.0, q.1, (length-pad b' ' (pad b' ' (pad b' ' size).1).1).0))
  ]
]

layout-LaidOut :
    (f : Flags) (size : ℤ) (sign special tmp : List ℕ)
    → LaidOut size sign special (reverse tmp) (layout f size sign special tmp)
unfolding layout
layout-LaidOut f size sign special tmp =
    let (b, l, t) = field_pads f size in
    let d = reverse tmp in
    record {
      before = b ++ (sign ++ (special ++ l));
      after = t;
      whole = simp append_assoc;
      width = omega (
        arith,
        field_pads-length f size,
        length-append b (sign ++ (special ++ (l ++ (d ++ t)))),
        length-append sign (special ++ (l ++ (d ++ t))),
        length-append special (l ++ (d ++ t)),
        length-append l (d ++ t),
        length-append d t,
      );
    }

pos_part-sub : (a : ℤ) (n : ℕ) → pos_part (a -ℤ n) ≡ pos_part a - n
pos_part-sub a n = ground arith

-- What `number` promises of the text `out`: the digits stand in it unbroken and read back as the
-- number, and it is as wide as the field or, if that is longer, as what has to be written.
pub record Printed (num base : ℕ) (size : ℤ) (flags : Flags) (out : List ℕ) : Type 0 where
  pub before : List ℕ
  pub digits : List ℕ
  pub after : List ℕ
  pub whole : out ≡ before ++ (digits ++ after)
  pub value : read_digits base 0 digits ≡ num
  pub some_digit : 0 < length digits
  pub width :
      length out
      ≡ max
          (pos_part size)
          (length (sign_chars flags num) + length (special_chars flags base) + length digits)

special-length :
    (f : Flags) (base : ℕ)
    → (f.special ≡ true → (base ≡ 8) ⊎ (base ≡ 16))
    → length (special_chars f base) ≡ special_size f base
unfolding special_chars special_size
special-length f base h = ground (arith, h)

-- What the adjustment leaves alone.
adjusted-chars :
    (flags : Flags) (num base : ℕ)
    → (sign_chars (adjusted flags) num ≡ sign_chars flags num)
      × (special_chars (adjusted flags) base ≡ special_chars flags base)
      × ((adjusted flags).special ≡ flags.special)
unfolding adjusted sign_chars special_chars
adjusted-chars flags num base = ground arith

number-run :
    (num base : ℕ) (size precision : ℤ) (flags : Flags) {tmp : List ℕ}
    → 2 ≤ base
    → base ≤ 36
    → digits (adjusted flags).small base num ≡ ok tmp
    → let f = adjusted flags in
      let sign = sign_chars f num in
      number num base size precision flags
      ≡ ok (
          some (
            layout f
              (size -ℤ length sign -ℤ special_size f base -ℤ length tmp)
              sign
              (special_chars f base)
              tmp))
unfolding number
number-run num base size precision flags h k run = rw (run, le→ltb base 2 h, le→ltb 36 base k)

-- A 32-bit number in a base from 2 to 36: `number` stays inside `tmp` and writes the number's
-- digits in the field that was asked for. With SPECIAL the base is 8 or 16.
pub number-Printed :
    (num base : ℕ) (size precision : ℤ) (flags : Flags)
    → num < 2 ^ 32
    → 2 ≤ base
    → base ≤ 36
    → (flags.special ≡ true → (base ≡ 8) ⊎ (base ≡ 16))
    → (out : List ℕ) × (number num base size precision flags ≡ ok (some out))
      × Printed num base size flags out
number-Printed num base size precision flags fits h k s =
    let f = adjusted flags in
    let (tmp, run, back, some_left) = digits-read f.small base num h k fits in
    let sign = sign_chars f num in
    let rest = size -ℤ length sign -ℤ special_size f base -ℤ length tmp in
    let laid = layout-LaidOut f rest sign (special_chars f base) tmp in
    let (same_sign, same_special, special) = adjusted-chars flags num base in
    let wide = special-length f base (λ e. s (sym special ∙ e)) in
    (
      layout f rest sign (special_chars f base) tmp,
      number-run num base size precision flags h k run,
      record {
        before = laid.before;
        digits = reverse tmp;
        after = laid.after;
        whole = laid.whole;
        value = back;
        some_digit = omega (arith, length-reverse tmp);
        width =
            rw (← same_sign, ← same_special)
              (omega (
                arith,
                laid.width,
                wide,
                length-reverse tmp,
                pos_part-sub size (length sign),
                pos_part-sub (size -ℤ length sign) (special_size f base),
                pos_part-sub (size -ℤ length sign -ℤ special_size f base) (length tmp),
              ));
      },
    )
