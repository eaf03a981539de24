-- ===== src/Bitmap.antt =====
-- kernel/bitmap.c and include/common/bitmap.h: a table of bits for the pages (or disk blocks) from
-- `offset` on. Functions that write the table return it beside their result. The `int` that they
-- return is `none` where it is EOF.
pub mod Bits
pub mod Scan
mod Tests
use rdix.Common.{
  ℕ, zero, suc, ◌+◌, ◌-◌, ◌*◌, ◌/◌, ◌%◌, Bool, true, false, Option, none, some, List, Outcome, ok,
  out_of_fuel, ◌>>=◌, ◌>>◌, assert, ltb, leb, ◌==◌, if◌then◌else◌, u32, sub32, replicate, set,
  get_or,
}
use rdix.Common.Bytes.{test_bit, set_bit, clear_bit}

-- `start` is the memory that the pointer leads to.
pub record Bitmap : Type 0 where
  pub start : List ℕ
  pub length : ℕ
  pub offset : ℕ

-- `buf` of `length` bytes is cleared by `memset`.
unfoldable pub bitmap_init : ℕ → ℕ → Bitmap
bitmap_init length offset = record { start = replicate length 0; length = length; offset = offset }

-- the bit with index `i` from the start of the table
abbrev pub bit_at : List ℕ → ℕ → Bool
bit_at bytes i = test_bit (get_or bytes (i / 8) 0) (i % 8)

unfoldable pub bitmap_test : Bitmap → ℕ → Outcome Bool
bitmap_test map idx = do
  assert (leb map.offset idx)
  assert (ltb idx (u32 (map.offset + u32 (map.length * 8))))
  ok (bit_at map.start (idx - map.offset))

unfoldable pub bool_eq : Bool → Bool → Bool
bool_eq true b = b
bool_eq false true = false
bool_eq false false = true

-- the byte that is stored over `b`
abbrev pub new_byte : Bool → ℕ → ℕ → ℕ
new_byte status b k = if status then set_bit b k else clear_bit b k

unfoldable pub write_bit : List ℕ → ℕ → Bool → List ℕ
write_bit bytes i status = set bytes (i / 8) (new_byte status (get_or bytes (i / 8) 0) (i % 8))

-- `false` is EOF: the bit has the value already.
unfoldable pub bitmap_set : Bitmap → ℕ → Bool → Outcome (Bool × Bitmap)
unfolding bool_eq write_bit
bitmap_set map idx status = do
  assert (leb map.offset idx)
  old ← bitmap_test map idx
  if bool_eq old status
      then ok (false, map)
      else ok (true, record map { start = write_bit map.start (idx - map.offset) status })

-- The `for` of `bitmap_scan`, `n` rounds from index `idx` on.
unfoldable pub fill : ℕ → Bitmap → ℕ → Outcome Bitmap
fill zero map idx = ok map
fill (suc n) map idx = do (_, map') ← bitmap_set map idx true; fill n map' (u32 (idx + 1))

-- The `while` of `bitmap_scan`, on fuel.
unfoldable pub scan_loop : ℕ → Bitmap → ℕ → ℕ → ℕ → Outcome (Option ℕ × Bitmap)
unfolding fill
scan_loop zero map count start_idx local_count = out_of_fuel
scan_loop (suc f) map count start_idx local_count =
    let restart = scan_loop f map count (u32 (start_idx + local_count + 1)) 0 in
    let onward = scan_loop f map count start_idx (u32 (local_count + 1)) in
    if ltb (u32 (local_count + start_idx)) (u32 (map.length * 8))
    then (do
      used ← bitmap_test map (u32 (start_idx + local_count + map.offset))
      if used
          then restart
          else if local_count == sub32 count 1
          then (do
            map' ← fill count map (u32 (map.offset + start_idx))
            ok (some (u32 (start_idx + map.offset)), map'))
          else onward)
    else ok (none, map)

unfoldable pub bitmap_scan : Bitmap → ℕ → Outcome (Option ℕ × Bitmap)
unfolding scan_loop
bitmap_scan map count = scan_loop (map.length * 8 + 1) map count 0 0
