-- ===== src/Blocks/Tests.antt =====
-- A volume with two maps of blocks.
use mathlib.Core.Path.{subst}
use rdix.Common.{
  some-inj, none-ne-some, ℕ, ◌≤◌, ◌<◌, ◌≡◌, refl, zero, suc, List, [], ◌∷◌, arith, panic, some, ok,
  get_elem?, get_or, length, replicate, length-replicate,
}
use rdix.Bitmap.{bool_eq, write_bit, bitmap_set, bitmap_test}
use rdix.Common.Bytes.{test_bit, clear_bit}
use rdix.Blocks.{SuperBlock, block_size, bfree, free_bit}
use rdix.Blocks.Free.{IsVolume, bfree-panic}

abbrev full_map : List ℕ
full_map = replicate 1024 255

abbrev volume : SuperBlock
volume = record {
  zmaps = full_map ∷ full_map ∷ [];
  imaps = [];
  firstdatazone = 20;
  zones = 16000;
  inodes = 0;
}

full-bytes : (n j : ℕ) → get_or (replicate n 255) j 0 < 256
full-bytes zero j = omega arith
full-bytes (suc n) zero = omega arith
full-bytes (suc n) (suc j) = full-bytes n j

abbrev BlockOfBytes : List ℕ → Type 0
BlockOfBytes b_data = (block_size ≤ length b_data) × ((j : ℕ) → get_or b_data j 0 < 256)

full_map-BlockOfBytes : BlockOfBytes full_map
full_map-BlockOfBytes = (omega (arith, length-replicate {A = ℕ} 1024 255), full-bytes 1024)

volume_maps :
    (i : ℕ) (b_data : List ℕ) → get_elem? volume.zmaps i ≡ some b_data → BlockOfBytes b_data
volume_maps zero b_data e = subst BlockOfBytes (some-inj e) full_map-BlockOfBytes
volume_maps (suc zero) b_data e = subst BlockOfBytes (some-inj e) full_map-BlockOfBytes
volume_maps (suc (suc i)) b_data e = absurd (none-ne-some e)

volume-IsVolume : IsVolume volume
volume-IsVolume = record { first_low = omega arith; small = omega arith; maps = volume_maps }

-- block 8200 is in use, in the first map
bfree-panic_example : bfree 8200 volume ≡ panic
bfree-panic_example = bfree-panic volume 8200 volume-IsVolume (omega arith)

-- block 25 has the seventh bit
abbrev fresh : SuperBlock
fresh = record {
  zmaps = (127 ∷ replicate 1023 0) ∷ [];
  imaps = [];
  firstdatazone = 20;
  zones = 100;
  inodes = 0;
}

bfree_test : bfree 25 fresh ≡ ok (record fresh { zmaps = (63 ∷ replicate 1023 0) ∷ [] })
unfolding bfree free_bit bitmap_test bitmap_set bool_eq write_bit test_bit clear_bit
bfree_test = refl
