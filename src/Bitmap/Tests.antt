-- ===== src/Bitmap/Tests.antt =====
-- Runs of kernel/bitmap.c, and its theorems at a small table.
use rdix.Common.{ℕ, zero, suc, ◌≡◌, refl, none, some, [], ◌∷◌, arith, ok, panic, ◌<◌, get_or}
use rdix.Common.Bytes.{test_bit, set_bit}
use rdix.Bitmap.{Bitmap, bitmap_test, bitmap_set, bitmap_scan}
use rdix.Bitmap.Bits.{IsValid}
use rdix.Bitmap.Scan.{Scans, bitmap_scan_lem}

-- pages 256 to 271, of which 256 to 260 and 262 are taken
abbrev table : Bitmap
table = record { start = 0b1011111 ∷ 0 ∷ []; length = 2; offset = 256 }

table-bytes : (i : ℕ) → get_or table.start i 0 < 256
table-bytes zero = omega arith
table-bytes (suc zero) = omega arith
table-bytes (suc (suc i)) = omega arith

table-IsValid : IsValid table
table-IsValid = record { storage = omega arith; bytes = table-bytes; room = omega arith }

scan_one : bitmap_scan table 1 ≡ ok (some 261, record table { start = 0b1111111 ∷ 0 ∷ [] })
unfolding bitmap_scan bitmap_test bitmap_set test_bit set_bit
scan_one = refl

scan_two : bitmap_scan table 2 ≡ ok (some 263, record table { start = 0b11011111 ∷ 1 ∷ [] })
unfolding bitmap_scan bitmap_test bitmap_set test_bit set_bit
scan_two = refl

-- a request for no page finds nothing
scan_none : bitmap_scan table 0 ≡ ok (none, table)
unfolding bitmap_scan bitmap_test bitmap_set test_bit set_bit
scan_none = refl

test_outside : bitmap_test table 272 ≡ panic
unfolding bitmap_test
test_outside = refl

bitmap_scan_lem_example : Scans table 2 (bitmap_scan table 2)
bitmap_scan_lem_example = bitmap_scan_lem table-IsValid 2 (omega arith) (omega arith)
