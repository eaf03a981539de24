-- ===== src/Fs/Behind.antt =====
-- find_entry of fs/minix1/namei.c behind the first block: the index of an entry is not taken in its
-- block, so entry 64 is looked for behind the end of the second block.
use rdix.Common.{
  ℕ, zero, suc, ◌+◌, ◌*◌, ◌/◌, ◌≤◌, ◌<◌, ◌≡◌, ◌⊎◌, ◌∙◌, inl, inr, refl, Bool, true, false, not,
  Option, none, some, List, [], ◌∷◌, arith, Outcome, ok, panic, out_of_fuel, ◌>>=◌, Halts,
  Halts->>=, assert, ◌==◌, ==→eq, ==→ne, Bool-cases, if◌then◌else◌, length, get_elem?, get_or,
}
use rdix.Text.{match_name}
use rdix.Fs.{DInode, Fs}
use rdix.Fs.Zones.{words_of, bmap}
use rdix.Fs.Entries.{Place, dir_entry_size, entry_inode, find_from, find_entry}
use rdix.Fs.Direct.{desc_of-Held, dev_of-Held}
use rdix.Fs.Total.{bmap-Halts}
use rdix.Fs.Search.{entry_name, EndsIn, is_entry, IsDirectory, length-words_of, round}

then-panic {ℓ κ} :
    {A : Type ℓ} {B : Type κ} (m : Outcome A) (f : A → Outcome B)
    → Halts m
    → ((a : A) → f a ≡ panic)
    → (m >>= f) ≡ panic
then-panic (ok a) f h stop = stop a
then-panic panic f h stop = refl
then-panic out_of_fuel f h stop = absurd h

get_elem?-behind : (xs : List ℕ) (i : ℕ) → length xs ≤ i → get_elem? xs i ≡ none
get_elem?-behind [] i h = refl
get_elem?-behind (x ∷ xs) zero h = absurd (omega arith)
get_elem?-behind (x ∷ xs) (suc i) h = get_elem?-behind xs i (omega arith)

entry_inode-behind : (b_data : List ℕ) → length b_data ≡ 1024 → entry_inode 64 b_data ≡ panic
unfolding entry_inode
entry_inode-behind b_data whole =
    let words = length-words_of 512 b_data (omega arith) in
    rw (entry_inode, get_elem?-behind (words_of b_data) 512 (omega (arith, words))) refl

assert-Halts : (b : Bool) → Halts (assert b)
assert-Halts true = tt
assert-Halts false = tt

module _ {dir dev : ℕ} {desc : DInode} {block : ℕ} {fs : Fs} (path : List ℕ)
    (d : IsDirectory dir dev desc block fs) (whole : (b : ℕ) → length (fs.bytes dev b) ≡ 1024)
    (ends : (j : ℕ) → j < 64 → EndsIn (fs.bytes dev block) j) where
  at_behind : (n known : ℕ) → find_from (suc n) 64 dir path 0 known fs ≡ panic
  unfolding find_from
  at_behind n known =
      then-panic (bmap dir 1 false fs >>= λ r. ok r.0) _
        (Halts->>= (bmap dir 1 false fs) _ (bmap-Halts dir 1 fs) (λ r. tt))
        λ here.
          then-panic (assert (not (here == 0))) _ (assert-Halts _)
            λ _. rw (dev_of-Held d.held, entry_inode-behind _ (whole here)) refl

  from_first :
      (n i known : ℕ)
      → i ≤ 64
      → 64 < i + n
      → (known ≡ 0) ⊎ (known ≡ block)
      → ((j : ℕ) → i ≤ j → j < 64 → is_entry path (fs.bytes dev block) j ≡ false)
      → find_from n i dir path 0 known fs ≡ panic
  from_first zero i known low long at no_entry = absurd (omega arith)
  from_first (suc n) i known low long at no_entry = elim (Bool-cases (i == 64)) [
    | inl b ↦ rw (==→eq i 64 b) (at_behind n known)
    | inr b ↦
        let under : i < 64 = omega (arith, ==→ne i 64 b) in
        let here = no_entry i (omega arith) under in
        let rest =
          from_first n (i + 1) block (omega arith) (omega arith) (inr refl)
            (λ j from below. no_entry j (omega arith) below) in
        round n i known path d under at (ends i under) ∙ past i here rest
  ]
    where
      past :
          (i : ℕ) {rest : Outcome (Option Place)}
          → is_entry path (fs.bytes dev block) i ≡ false
          → rest ≡ panic
          → (if get_or (words_of (fs.bytes dev block)) (8 * i) 0 == 0
              then rest
              else if match_name path (entry_name i (fs.bytes dev block))
              then ok (some (block, i))
              else rest)
            ≡ panic
      past i no_entry stop =
          elim (Bool-cases (get_or (words_of (fs.bytes dev block)) (8 * i) 0 == 0)) [
            | inl unused ↦ rw (unused, stop) refl
            | inr used ↦ rw used (rw (rw used at no_entry) stop)
          ]

  -- A directory of more than 64 entries, with no entry of the name among the first 64, whose names end
  -- within their 14 bytes: find_entry
  -- reads behind the end of a block, or stops the kernel.
  pub find_entry-behind :
      64 < desc.size / dir_entry_size
      → ((j : ℕ) → j < 64 → is_entry path (fs.bytes dev block) j ≡ false)
      → find_entry dir (some path) fs ≡ panic
  unfolding find_entry
  find_entry-behind long no_entry =
      let n = desc.size / dir_entry_size in
      rw (desc_of-Held d.held, d.kind)
        (from_first n 0 0 (omega arith) (omega arith) (inl refl) (λ j from below. no_entry j below))
