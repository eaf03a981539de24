-- ===== src/Bitmap/Bits.antt =====
-- `bitmap_test` and `bitmap_set` read and write single bits of the table.
use rdix.Common.{
  ℕ, zero, suc, ◌+◌, ◌-◌, ◌*◌, ◌/◌, ◌%◌, ◌^◌, ◌≤◌, ◌<◌, ◌≡◌, ◌≢◌, ◌↔◌, refl, inl, inr, Bool, true,
  false, List, [], ◌∷◌, arith, ok, Bool-cases, ltb, leb, ◌&&◌, ◌==◌, if◌then◌else◌, get_or, set,
  length, length-set, get_or-set_self, get_or-set_ne, panic, ==→eq,
}
use rdix.Common.Bytes.{test_bit, set_bit, clear_bit, test_bit-set_bit, test_bit-clear_bit}
use rdix.Bitmap.{Bitmap, bit_at, new_byte, bitmap_test, bool_eq, write_bit, bitmap_set}

-- What every use of a table relies on: its memory holds it, and its indices fit a u32.
pub record IsValid (m : Bitmap) : Type 0 where
  pub storage : m.length ≤ length m.start
  pub bytes : (i : ℕ) → get_or m.start i 0 < 256
  pub room : m.offset + m.length * 8 < 2 ^ 32

-- `idx` belongs to the table.
abbrev pub Covers : Bitmap → ℕ → Type 0
Covers m idx = (m.offset ≤ idx) × (idx < m.offset + m.length * 8)

-- the bit that the table keeps for `idx`
abbrev pub marked : Bitmap → ℕ → Bool
marked m idx = bit_at m.start (idx - m.offset)

set_bit-lt : (b k : ℕ) → set_bit b k < 256
unfolding set_bit
set_bit-lt b k = omega arith

clear_bit-lt : (b k : ℕ) → clear_bit b k < 256
unfolding clear_bit
clear_bit-lt b k = omega arith

div_mod_ne : (i j : ℕ) → i ≢ j → i / 8 ≡ j / 8 → i % 8 ≢ j % 8
div_mod_ne i j h e = omega arith

new_byte-lt : (s : Bool) (b k : ℕ) → new_byte s b k < 256
new_byte-lt true b k = set_bit-lt b k
new_byte-lt false b k = clear_bit-lt b k

test_bit-new_byte :
    (s : Bool) (b k j : ℕ)
    → b < 256
    → k < 8
    → j < 8
    → test_bit (new_byte s b k) j ≡ (if k == j then s else test_bit b j)
test_bit-new_byte true b k j hb hk hj = test_bit-set_bit b k j hb hk hj
test_bit-new_byte false b k j hb hk hj = test_bit-clear_bit b k j hb hk hj

pub length-write_bit :
    (bytes : List ℕ) (i : ℕ) (s : Bool) → length (write_bit bytes i s) ≡ length bytes
unfolding write_bit
length-write_bit bytes i s = length-set bytes (i / 8) _

get_or-set_bound :
    (xs : List ℕ) (i j v : ℕ) → v < 256 → get_or xs j 0 < 256 → get_or (set xs i v) j 0 < 256
get_or-set_bound [] i j v hv h = h
get_or-set_bound (x ∷ xs) zero zero v hv h = hv
get_or-set_bound (x ∷ xs) zero (suc j) v hv h = h
get_or-set_bound (x ∷ xs) (suc i) zero v hv h = h
get_or-set_bound (x ∷ xs) (suc i) (suc j) v hv h = get_or-set_bound xs i j v hv h

pub write_bit-bytes :
    (bytes : List ℕ) (i j : ℕ) (s : Bool)
    → get_or bytes j 0 < 256
    → get_or (write_bit bytes i s) j 0 < 256
unfolding write_bit
write_bit-bytes bytes i j s h = get_or-set_bound bytes (i / 8) j _ (new_byte-lt s _ (i % 8)) h

-- A write changes the one bit.
pub bit_at-write_bit :
    (bytes : List ℕ) (i j : ℕ) (s : Bool)
    → i < length bytes * 8
    → get_or bytes (i / 8) 0 < 256
    → bit_at (write_bit bytes i s) j ≡ (if i == j then s else bit_at bytes j)
unfolding write_bit
bit_at-write_bit bytes i j s hi hb =
    let b = get_or bytes (i / 8) 0 in
    let new = new_byte s b (i % 8) in
    elim (Bool-cases (i / 8 == j / 8)) [
      | inl e ↦
          rw (← ==→eq _ _ e, get_or-set_self bytes (i / 8) new 0 (omega arith))
            (ground (arith, test_bit-new_byte s b (i % 8) (j % 8), div_mod_ne i j))
      | inr e ↦ ground (arith, get_or-set_ne bytes (i / 8) (j / 8) new 0)
    ]

module _ {m : Bitmap} (v : IsValid m) (idx : ℕ) where
  -- Inside the table `bitmap_test` passes both assertions and reads the bit.
  pub bitmap_test-ok : Covers m idx → bitmap_test m idx ≡ ok (marked m idx)
  unfolding bitmap_test
  bitmap_test-ok c = ground arith

  -- Outside it stops the kernel.
  pub bitmap_test-panic : ¬ Covers m idx → bitmap_test m idx ≡ panic
  unfolding bitmap_test
  bitmap_test-panic c = ground arith

-- the table with one bit written
abbrev pub with_bit : Bitmap → ℕ → Bool → Bitmap
with_bit m idx s = record m { start = write_bit m.start (idx - m.offset) s }

pub with_bit-IsValid : {m : Bitmap} (idx : ℕ) (s : Bool) → IsValid m → IsValid (with_bit m idx s)
with_bit-IsValid {m} idx s v = record {
  storage = rw length-write_bit v.storage;
  bytes = λ i. write_bit-bytes m.start (idx - m.offset) i s (v.bytes i);
  room = v.room;
}

pub marked-with_bit :
    {m : Bitmap} (idx j : ℕ) (s : Bool)
    → IsValid m
    → Covers m idx
    → m.offset ≤ j
    → marked (with_bit m idx s) j ≡ (if idx == j then s else marked m j)
marked-with_bit {m} idx j s v c h = ground (
  arith,
  bit_at-write_bit m.start (idx - m.offset) (j - m.offset) s,
  v.bytes ((idx - m.offset) / 8),
)

-- Outside the table `bitmap_set` stops the kernel.
pub bitmap_set-panic :
    {m : Bitmap} (idx : ℕ) (s : Bool) → IsValid m → ¬ Covers m idx → bitmap_set m idx s ≡ panic
unfolding bitmap_set
bitmap_set-panic idx s v c = rw (bitmap_test-panic v idx c) (ground arith)

-- `m'` is `m` but for the bits from `idx` on, `n` of them, which have the value `s`.
pub record Wrote (m : Bitmap) (idx n : ℕ) (s : Bool) (m' : Bitmap) : Type 0 where
  pub valid : IsValid m'
  pub same_length : m'.length ≡ m.length
  pub same_offset : m'.offset ≡ m.offset
  pub bits :
      (j : ℕ)
      → m.offset ≤ j
      → marked m' j ≡ (if leb idx j && ltb j (idx + n) then s else marked m j)

module _ {m : Bitmap} (idx : ℕ) (s : Bool) (v : IsValid m) (c : Covers m idx) where
  with_bit-Wrote : Wrote m idx 1 s (with_bit m idx s)
  with_bit-Wrote = record {
    valid = with_bit-IsValid idx s v;
    same_length = refl;
    same_offset = refl;
    bits = λ j h. ground (arith, marked-with_bit idx j s v c h);
  }

  same-Wrote : marked m idx ≡ s → Wrote m idx 1 s m
  same-Wrote e = record {
    valid = v;
    same_length = refl;
    same_offset = refl;
    bits = λ j h. elim (Bool-cases (idx == j)) [
      | inl same ↦ rw (← ==→eq _ _ same, e) (ground arith)
      | inr other ↦ ground arith
    ];
  }

  -- Inside the table `bitmap_set` writes the one bit and no other, and keeps the table well formed.
  -- It returns EOF exactly when the bit has the value already.
  pub bitmap_set_lem :
      (changed : Bool) × (m' : Bitmap) × (bitmap_set m idx s ≡ ok (changed, m'))
      × Wrote m idx 1 s m'
      × ((changed ≡ false) ↔ (marked m idx ≡ s))
  unfolding bitmap_set bool_eq
  bitmap_set_lem = elim (Bool-cases (bool_eq (marked m idx) s)) [
    | inl e ↦ (
      false,
      m,
      rw (bitmap_test-ok v idx c) (ground arith),
      same-Wrote (ground arith),
      ((λ _. ground arith), (λ _. refl)),
    )
    | inr e ↦ (
      true,
      with_bit m idx s,
      rw (bitmap_test-ok v idx c) (ground arith),
      with_bit-Wrote,
      ((λ h. cc h), (λ h. ground arith)),
    )
  ]
