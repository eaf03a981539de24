-- ===== src/Fs/Search.antt =====
-- find_entry of fs/minix1/namei.c: where the entries fill one block at most, it gives the first
-- entry in use whose name the path begins with. Behind the first block it reads the wrong memory.
use rdix.Common.{
  ℕ, zero, suc, ◌+◌, ◌*◌, ◌/◌, ◌≤◌, ◌<◌, ◌≡◌, ◌≢◌, ◌⊎◌, ◌∙◌, inl, inr, refl, ap, Bool, true, false,
  ◌&&◌, ◌||◌, not, Option, none, some, List, [], ◌∷◌, arith, ok, leb, ◌==◌, ==→eq, ==→ne,
  Bool-cases, if◌then◌else◌, length, take, get_elem?, get_or, get_elem?-eq-get_or,
}
use rdix.Text.{match_name}
use rdix.Fs.{DInode, Fs, is_dir}
use rdix.Fs.Zones.{words_of}
use rdix.Fs.Entries.{
  Place, dir_entry_size, name_len, entry_inode, entry_memory, match_at, block_or_look_up, find_from,
  find_entry,
}
use rdix.Fs.Direct.{Held, dev_of-Held, desc_of-Held, bmap-direct}

-- The text in some bytes, up to their NUL.
unfoldable pub text_of : List ℕ → List ℕ
text_of [] = []
text_of (c ∷ mem) = let rest = text_of mem in if c == 0 then [] else c ∷ rest

unfoldable pub has_nul : List ℕ → Bool
has_nul [] = false
has_nul (c ∷ mem) = let rest = has_nul mem in c == 0 || rest

-- The 14 bytes of the name of entry `i`, and the name.
abbrev pub name_field : ℕ → List ℕ → List ℕ
name_field i b_data = take name_len (entry_memory i b_data)

abbrev pub entry_name : ℕ → List ℕ → List ℕ
entry_name i b_data = text_of (name_field i b_data)

-- A name that ends within `n` bytes is compared as a text.
match_at-text_of :
    (n : ℕ) (name mem : List ℕ)
    → has_nul (take n mem) ≡ true
    → match_at name mem ≡ ok (match_name name (text_of (take n mem)))
unfolding match_at has_nul text_of match_name
match_at-text_of zero name mem h = cc
match_at-text_of (suc n) name [] h = cc
match_at-text_of (suc n) [] (e ∷ mem) h = elim (Bool-cases (e == 0)) [
  | inl b ↦ rw b refl
  | inr b ↦ rw b refl
]
match_at-text_of (suc n) (c ∷ name) (e ∷ mem) h = elim (Bool-cases (e == 0)) [
  | inl b ↦ rw b refl
  | inr b ↦ elim (Bool-cases (c == e)) [
    | inl b' ↦ rw (b, b') (match_at-text_of n name mem (rw b at h))
    | inr b' ↦ rw (b, b') refl
  ]
]

-- Where the entry is in use, its name ends within its 14 bytes.
abbrev pub EndsIn : List ℕ → ℕ → Type 0
EndsIn b_data i = get_or (words_of b_data) (8 * i) 0 ≢ 0 → has_nul (name_field i b_data) ≡ true

-- Entry `i` is in use and its name begins the path.
abbrev pub is_entry : List ℕ → List ℕ → ℕ → Bool
is_entry path b_data i =
    not (get_or (words_of b_data) (8 * i) 0 == 0) && match_name path (entry_name i b_data)

-- The result of a search among the entries from `i` to `n`.
abbrev pub First : ℕ → ℕ → List ℕ → ℕ → List ℕ → Option Place → Type 0
First i n path block b_data none = (j : ℕ) → i ≤ j → j < n → is_entry path b_data j ≡ false
First i n path block b_data (some (b, k)) =
    (b ≡ block)
    × (k < n)
    × (is_entry path b_data k ≡ true)
    × ((j : ℕ) → i ≤ j → j < k → is_entry path b_data j ≡ false)

pub length-words_of :
    (n : ℕ) (b_data : List ℕ) → length b_data ≡ 2 * n → length (words_of b_data) ≡ n
unfolding words_of
length-words_of zero [] e = refl
length-words_of zero (low ∷ b_data) e = absurd (omega arith)
length-words_of (suc n) [] e = absurd (omega arith)
length-words_of (suc n) (low ∷ []) e = absurd (omega arith)
length-words_of (suc n) (low ∷ high ∷ b_data) e = ap suc (length-words_of n b_data (omega arith))

-- A directory in use whose first block is there.
pub record IsDirectory (dir dev : ℕ) (desc : DInode) (block : ℕ) (fs : Fs) : Type 0 where
  pub held : Held dir dev desc fs
  pub kind : is_dir desc.mode ≡ true
  pub zone : get_elem? desc.zone 0 ≡ some block
  pub there : block ≢ 0
  pub volume : 0 < (fs.supers dev).zones
  pub whole : length (fs.bytes dev block) ≡ 1024

pub entry_inode-whole :
    (i : ℕ) (b_data : List ℕ)
    → length b_data ≡ 1024
    → i < 64
    → entry_inode i b_data ≡ ok (get_or (words_of b_data) (8 * i) 0)
unfolding entry_inode
entry_inode-whole i b_data whole low =
    let words = length-words_of 512 b_data (omega arith) in
    rw (entry_inode, get_elem?-eq-get_or (words_of b_data) (8 * i) 0 (omega arith)) refl

-- One round on the first block.
pub round :
    {dir dev : ℕ} {desc : DInode} {block : ℕ} {fs : Fs} (n i known : ℕ) (path : List ℕ)
    → IsDirectory dir dev desc block fs
    → i < 64
    → (known ≡ 0) ⊎ (known ≡ block)
    → EndsIn (fs.bytes dev block) i
    → find_from (suc n) i dir path 0 known fs ≡ (
        let rest = find_from n (i + 1) dir path 0 block fs in
        let nr = get_or (words_of (fs.bytes dev block)) (8 * i) 0 in
        if nr == 0
        then rest
        else if match_name path (entry_name i (fs.bytes dev block))
        then ok (some (block, i))
        else rest)
unfolding find_from
round {dir} {dev} {desc} {block} {fs} n i known path d low at ends =
    let here : leb 64 i ≡ false = ground (arith, low) in
    let full : (block == 0) ≡ false = ground (arith, d.there) in
    let first : i / 64 ≡ 0 = omega arith in
    let found : block_or_look_up dir i known fs ≡ ok block = elim at [
      | inl e ↦
          rw (e, first, bmap-direct 0 block false d.held (omega arith) d.volume d.zone refl) refl
      | inr e ↦ rw (e, full) refl
    ] in
    rw (here, found, full, dev_of-Held d.held, entry_inode-whole i _ d.whole low)
      (elim (Bool-cases (get_or (words_of (fs.bytes dev block)) (8 * i) 0 == 0)) [
        | inl unused ↦ rw unused refl
        | inr used ↦
            let same =
              match_at-text_of name_len path (entry_memory i (fs.bytes dev block))
                (ends (==→ne _ 0 used)) in
            rw (used, same) refl
      ])

-- What a round that finds nothing adds to what the later ones show.
First-down :
    (i n : ℕ) (path : List ℕ) (block : ℕ) (b_data : List ℕ) (found : Option Place)
    → is_entry path b_data i ≡ false
    → First (i + 1) n path block b_data found
    → First i n path block b_data found
First-down i n path block b_data none no_entry h = λ j from below. elim (Bool-cases (j == i)) [
  | inl b ↦ rw (==→eq j i b) no_entry
  | inr b ↦ h j (omega (arith, ==→ne j i b)) below
]
First-down i n path block b_data (some (b, k)) no_entry (same, low, is, before) = (
  same,
  low,
  is,
  λ j from below. elim (Bool-cases (j == i)) [
    | inl b ↦ rw (==→eq j i b) no_entry
    | inr b ↦ before j (omega (arith, ==→ne j i b)) below
  ],
)

find_from-First :
    {dir dev : ℕ} {desc : DInode} {block : ℕ} {fs : Fs} (n i known : ℕ) (path : List ℕ)
    → IsDirectory dir dev desc block fs
    → i + n ≤ 64
    → (known ≡ 0) ⊎ (known ≡ block)
    → ((j : ℕ) → j < i + n → EndsIn (fs.bytes dev block) j)
    → (found : Option Place) × (find_from n i dir path 0 known fs ≡ ok found)
      × First i (i + n) path block (fs.bytes dev block) found
unfolding find_from
find_from-First zero i known path d low at ends = (none, refl, λ j from below. absurd (omega arith))
find_from-First {dir} {dev} {desc} {block} {fs} (suc n) i known path d low at ends =
    let b_data = fs.bytes dev block in
    let (found, run, first) =
      find_from-First n (i + 1) block path d (omega arith) (inr refl)
        (λ j below. ends j (omega arith)) in
    let step = round n i known path d (omega arith) at (ends i (omega arith)) in
    let reach : i + 1 + n ≡ i + suc n = omega arith in
    let first1 : First (i + 1) (i + suc n) path block b_data found = rw (← reach) first in
    elim (Bool-cases (get_or (words_of b_data) (8 * i) 0 == 0)) [
      | inl unused ↦ (
        found,
        step ∙ rw (unused, run) refl,
        First-down i (i + suc n) path block b_data found (rw unused refl) first1,
      )
      | inr used ↦ elim (Bool-cases (match_name path (entry_name i b_data))) [
        | inl same ↦ (
          some (block, i),
          step ∙ rw (used, same) refl,
          (refl, omega arith, rw (used, same) refl, λ j from below. absurd (omega arith)),
        )
        | inr differs ↦ (
          found,
          step ∙ rw (used, differs, run) refl,
          First-down i (i + suc n) path block b_data found (rw (used, differs) refl) first1,
        )
      ]
    ]

-- In a directory of at most 64 entries, where the name of each entry in use ends with a NUL within its
-- 14 bytes, find_entry returns: with the first entry in use whose name the path begins with, up to
-- its end or a separator, or with NULL where there is none.
pub find_entry-First :
    {dir dev : ℕ} {desc : DInode} {block : ℕ} {fs : Fs} (path : List ℕ)
    → IsDirectory dir dev desc block fs
    → desc.size / dir_entry_size ≤ 64
    → ((j : ℕ) → j < desc.size / dir_entry_size → EndsIn (fs.bytes dev block) j)
    → (found : Option Place) × (find_entry dir (some path) fs ≡ ok found)
      × First 0 (desc.size / dir_entry_size) path block (fs.bytes dev block) found
unfolding find_entry
find_entry-First {dir} {dev} {desc} {block} {fs} path d small ends =
    let n = desc.size / dir_entry_size in
    let zero_n : 0 + n ≡ n = omega arith in
    let (found, run, first) =
      find_from-First n 0 0 path d (omega arith) (inl refl) (λ j below. ends j (omega arith)) in
    (found, rw (desc_of-Held d.held, d.kind) run, rw zero_n at first)
