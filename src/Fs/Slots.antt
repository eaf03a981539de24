-- ===== src/Fs/Slots.antt =====
-- add_entry of fs/minix1/namei.c, in a directory whose entries fill one block at most.
use rdix.Common.{
  ℕ, zero, suc, ◌+◌, ◌*◌, ◌/◌, ◌%◌, ◌≤◌, ◌<◌, ◌≡◌, ◌≢◌, ◌⊎◌, ◌∙◌, inl, inr, refl, true, false, none,
  some, List, arith, ok, ◌==◌, if◌then◌else◌, get_or, u32,
}
use rdix.Text.{strncpy, vaild_file_name}
use rdix.Fs.{DInode, Fs, set_desc, put_desc}
use rdix.Fs.Zones.{words_of, set_bytes}
use rdix.Fs.Entries.{dir_entry_size, name_len, find_entry, slot_from, fill_entry, add_entry}
use rdix.Fs.Direct.{Held, inode_at-Held, dev_of-Held, desc_of-Held, bmap-direct}
use rdix.Fs.Search.{IsDirectory, entry_inode-whole}

-- The number of the inode of entry `i`, 0 where the entry is free.
abbrev pub number : List ℕ → ℕ → ℕ
number b_data i = get_or (words_of b_data) (8 * i) 0

module _ {dir dev : ℕ} {desc : DInode} {block : ℕ} {fs : Fs}
    (d : IsDirectory dir dev desc block fs) where
  abbrev Known : ℕ → ℕ → Type 0
  Known zone_idx here = (zone_idx ≡ 0) ⊎ ((zone_idx ≡ 1) × (here ≡ block))

  slot_round :
      (n i zone_idx here : ℕ)
      → i < 64
      → Known zone_idx here
      → slot_from (suc n) i dir zone_idx here fs ≡ (
          if number (fs.bytes dev block) i == 0
          then ok (true, i, block, fs)
          else slot_from n (i + 1) dir 1 block fs)
  unfolding slot_from
  slot_round n i zone_idx here low at =
      let first : i / 512 ≡ 0 = omega arith in
      let inside : i % 512 ≡ i = omega arith in
      let full : (block == 0) ≡ false = ground (arith, d.there) in
      let found =
        bmap-direct 0 block (n == 0) d.held (omega arith) d.volume d.zone (ground (arith, full)) in
      elim at [
        | inl e ↦
            rw
              (e, first, found, full, dev_of-Held d.held, inside, entry_inode-whole i _ d.whole low)
              refl
        | inr (e, same) ↦
            rw (e, same, first, full, dev_of-Held d.held, inside, entry_inode-whole i _ d.whole low)
              refl
      ]

  slot_from-first :
      (m n i zone_idx here : ℕ)
      → i + m < 64
      → m < n
      → Known zone_idx here
      → ((j : ℕ) → i ≤ j → j < i + m → number (fs.bytes dev block) j ≢ 0)
      → number (fs.bytes dev block) (i + m) ≡ 0
      → slot_from n i dir zone_idx here fs ≡ ok (true, i + m, block, fs)
  slot_from-first m zero i zone_idx here low room at used free = absurd (omega arith)
  slot_from-first zero (suc n) i zone_idx here low room at used free =
      let same : i + 0 ≡ i = omega arith in
      let is : (number (fs.bytes dev block) i == 0) ≡ true = ground (arith, rw same at free) in
      rw same (slot_round n i zone_idx here (omega arith) at ∙ rw is refl)
  slot_from-first (suc m) (suc n) i zone_idx here low room at used free =
      let next : i + 1 + m ≡ i + suc m = omega arith in
      let busy : (number (fs.bytes dev block) i == 0) ≡ false =
        ground (arith, used i (omega arith) (omega arith)) in
      let rest =
        slot_from-first m n (i + 1) 1 block (omega arith) (omega arith) (inr (refl, refl))
          (λ j from below. used j (omega arith) (omega arith)) (rw next free) in
      slot_round n i zone_idx here (omega arith) at ∙ rw busy (rw next at rest)

  -- The directory with the name in entry `i`, and the size that ends behind that entry.
  abbrev pub filled : List ℕ → ℕ → Fs
  filled name i =
      let b_data = strncpy (dir_entry_size * i + 2) name name_len (fs.bytes dev block) in
      put_desc d.held.inode.desc (record desc { size = u32 ((i + 1) * dir_entry_size) })
        (set_bytes dev block b_data fs)

  fill_entry-filled :
      (name : List ℕ) (i : ℕ) → i < 64 → fill_entry dir name i block fs ≡ ok (filled name i)
  unfolding fill_entry set_desc
  fill_entry-filled name i low =
      let inside : i % 512 ≡ i = omega arith in
      let held : Held dir dev desc (
          set_bytes dev block (strncpy (dir_entry_size * i + 2) name name_len (fs.bytes dev block))
            fs) =
        record { inode = d.held.inode; there = d.held.there; on = d.held.on; is = d.held.is } in
      rw (inside, dev_of-Held d.held, desc_of-Held d.held) (rw (inode_at-Held held) refl)

  -- A valid name that is not in the directory, whose first block is there, and with a free entry among
  -- the first 64, at most the one behind the last: add_entry takes the first free entry `i`. It writes
  -- the name there, its first 13 characters if it is longer, with a NUL behind them, and sets the size
  -- of the directory to end behind entry `i`, also where there are entries behind it.
  pub add_entry-first :
      (name : List ℕ) (i : ℕ)
      → vaild_file_name name ≡ true
      → find_entry dir (some name) fs ≡ ok none
      → i < 64
      → i ≤ desc.size / dir_entry_size
      → ((j : ℕ) → j < i → number (fs.bytes dev block) j ≢ 0)
      → number (fs.bytes dev block) i ≡ 0
      → add_entry dir (some name) fs ≡ ok (some (block, i), filled name i)
  unfolding add_entry
  add_entry-first name i good new low inside used free =
      let from : 0 + i ≡ i = omega arith in
      let slot =
        slot_from-first i (desc.size / dir_entry_size + 1) 0 0 0 (omega arith) (omega arith)
          (inl refl) (λ j at below. used j (omega arith)) (rw from free) in
      rw (desc_of-Held d.held, d.kind, good, new, rw from at slot, fill_entry-filled name i low)
        refl
