-- ===== src/Blocks/Free.antt =====
-- Which blocks `bfree` can give back.
use rdix.Common.{
  ℕ, zero, suc, ◌+◌, ◌-◌, ◌*◌, ◌/◌, ◌%◌, ◌^◌, ◌≤◌, ◌<◌, ◌≡◌, refl, ap, inl, inr, Bool, false, some,
  List, [], ◌∷◌, arith, set, Outcome, ok, panic, ◌>>=◌, ◌>>◌, assert, ltb, get_elem?, get_or,
  length, Option-cases, Bool-cases, sub32,
}
use rdix.Bitmap.{bitmap_set}
use rdix.Bitmap.Bits.{IsValid, bitmap_test-panic}
use rdix.Blocks.{SuperBlock, block_size, block_bits, map_at, free_bit, bfree}

-- Each map is a block of bytes, and the numbers of the blocks fit the machine.
pub record IsVolume (sb : SuperBlock) : Type 0 where
  pub first_low : 1 ≤ sb.firstdatazone
  pub small : sb.firstdatazone + block_bits * (length sb.zmaps + 1) < 2 ^ 32
  pub maps :
      (i : ℕ) (b_data : List ℕ)
      → get_elem? sb.zmaps i ≡ some b_data
      → (block_size ≤ length b_data) × ((j : ℕ) → get_or b_data j 0 < 256)

get_elem-inside :
    (maps : List (List ℕ)) (i : ℕ) (b_data : List ℕ)
    → get_elem? maps i ≡ some b_data
    → i < length maps
get_elem-inside [] i b_data e = cc
get_elem-inside (m ∷ maps) zero b_data e = omega arith
get_elem-inside (m ∷ maps) (suc i) b_data e = omega (arith, get_elem-inside maps i b_data e)

map_at-IsValid :
    (sb : SuperBlock) (i : ℕ) (b_data : List ℕ)
    → IsVolume sb
    → get_elem? sb.zmaps i ≡ some b_data
    → IsValid (map_at (sub32 sb.firstdatazone 1) i b_data)
map_at-IsValid sb i b_data v e =
    let inside = get_elem-inside sb.zmaps i b_data e in
    let (long, bytes) = v.maps i b_data e in
    record { storage = long; bytes = bytes; room = omega (arith, v.first_low, v.small) }

free_bit-panic :
    (sb : SuperBlock) (nr : ℕ)
    → IsVolume sb
    → nr % block_bits < sb.firstdatazone - 1
    → free_bit (sub32 sb.firstdatazone 1) nr sb.zmaps ≡ panic
unfolding free_bit
free_bit-panic sb nr v late = elim (Option-cases (get_elem? sb.zmaps (nr / block_bits))) [
  | inl n ↦ rw (n, free_bit) refl
  | inr (b_data, n) ↦
      let inside = get_elem-inside sb.zmaps (nr / block_bits) b_data n in
      rw (n, free_bit)
        (ap
          (λ (r : Outcome Bool). r >>= λ used.
            assert used
            >> (bitmap_set (map_at (sub32 sb.firstdatazone 1) (nr / block_bits) b_data) nr false
                >>= λ m. ok (set sb.zmaps (nr / block_bits) m.1.start)))
          (bitmap_test-panic (map_at-IsValid sb (nr / block_bits) b_data v n) nr
            (λ c. omega (arith, c.0, v.first_low, v.small, inside))))
]

-- On a well formed volume bfree stops the kernel for every block whose number leaves less than
-- firstdatazone - 1 on division by 8192: it looks for the bit in the map of that quotient, and the
-- table of that map begins behind the block. Of these blocks balloc hands out those from 8192 on.
pub bfree-panic :
    (sb : SuperBlock) (nr : ℕ)
    → IsVolume sb
    → nr % block_bits < sb.firstdatazone - 1
    → bfree nr sb ≡ panic
unfolding bfree
bfree-panic sb nr v late = elim (Bool-cases (ltb nr sb.zones)) [
  | inr b ↦ rw b refl
  | inl b ↦ rw (b, free_bit-panic sb nr v late) refl
]
