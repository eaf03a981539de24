-- ===== src/Fs/Supers.antt =====
-- The table of super blocks: fs/minix1/super.c. `bread` is what the buffer of a block holds. A super
-- block is read once, and its maps are the blocks behind it.
use rdix.Common.{
  ℕ, zero, suc, ◌+◌, ◌≤◌, ◌≡◌, refl, ap, true, Option, none, some, List, [], ◌∷◌, arith, Outcome,
  ok, panic, ◌>>=◌, ◌>>◌, assert, ltb, lt→ltb, ◌==◌, if◌then◌else◌, get_or, set, replicate,
  tabulate, tabulate_ext,
}
use rdix.Blocks.{SuperBlock}
use rdix.Fs.{is_dev, is_free}
use rdix.Fs.Zones.{words_of}

abbrev pub super_nr : ℕ
super_nr = 32

-- `IMAP_NR` and `ZMAP_NR`
abbrev pub map_nr : ℕ
map_nr = 8

abbrev pub minix1_magic : ℕ
minix1_magic = 4991

-- `super_block_t`: the device, none for EOF, and the descriptor with the maps.
pub record Super : Type 0 where
  pub dev : Option ℕ
  pub desc : SuperBlock

abbrev pub no_super : SuperBlock
no_super = record { zmaps = []; imaps = []; firstdatazone = 0; zones = 0; inodes = 0 }

unfoldable pub super_init : List Super
super_init = replicate super_nr (record { dev = none; desc = no_super })

-- The `for` of `get_free_super`, from entry `i` on.
unfoldable pub get_free_super : ℕ → List Super → Outcome ℕ
get_free_super i [] = panic
get_free_super i (sb ∷ table) =
    let rest = get_free_super (i + 1) table in if is_free sb.dev then ok i else rest

-- The `for` of `get_super`.
unfoldable pub find_super : ℕ → ℕ → List Super → Option ℕ
find_super dev i [] = none
find_super dev i (sb ∷ table) =
    let rest = find_super dev (i + 1) table in if is_dev dev sb.dev then some i else rest

module _ (bread : ℕ → ℕ → List ℕ) where
  -- A `for` over the blocks of a map, with `n` left: map `i` is block `idx`.
  unfoldable pub read_maps : ℕ → ℕ → ℕ → ℕ → Outcome (List (List ℕ))
  read_maps dev zero i idx = ok []
  read_maps dev (suc n) i idx = do
    assert (ltb i map_nr)
    rest ← read_maps dev n (i + 1) (idx + 1)
    ok (bread dev idx ∷ rest)

  -- word `k` of `d_super_block`
  abbrev pub field : ℕ → ℕ → ℕ
  field dev k = get_or (words_of (bread dev 1)) k 0

  unfoldable pub read_super : ℕ → List Super → Outcome (ℕ × List Super)
  unfolding words_of
  read_super dev table = do
    i ← get_free_super 0 table
    assert (field dev 8 == minix1_magic)
    imaps ← read_maps dev (field dev 2) 0 2
    zmaps ← read_maps dev (field dev 3) 0 (2 + field dev 2)
    ok (
      i,
      set table i (record {
        dev = some dev;
        desc = record {
          zmaps = zmaps;
          imaps = imaps;
          firstdatazone = field dev 4;
          zones = field dev 1;
          inodes = field dev 0;
        };
      }),
    )

  unfoldable pub get_super : ℕ → List Super → Outcome (ℕ × List Super)
  get_super dev table = elim (find_super dev 0 table) [
    | some i ↦ ok (i, table)
    | none ↦ read_super dev table
  ]

  -- The maps are the blocks from the first on.
  read_maps-tabulate :
      (dev n i idx : ℕ)
      → i + n ≤ map_nr
      → read_maps dev n i idx ≡ ok (tabulate n (λ k. bread dev (idx + k)))
  unfolding read_maps
  read_maps-tabulate dev zero i idx few = refl
  read_maps-tabulate dev (suc n) i idx few =
      let here : idx + 0 ≡ idx = omega arith in
      let next =
        tabulate_ext n (λ k. bread dev (idx + 1 + k)) (λ k. bread dev (idx + suc k))
          (λ k low. ap (bread dev) (omega arith)) in
      rw
        (
          lt→ltb i map_nr (omega arith),
          read_maps-tabulate dev n (i + 1) (idx + 1) (omega arith),
          next,
          here,
        )
        refl

  -- What `read_super` makes of a device with the right magic number and at most 8 blocks for each map:
  -- the maps of inodes are the blocks from 2 on, and those of zones the blocks behind them.
  pub read_super-maps :
      (dev i : ℕ) (table : List Super)
      → get_free_super 0 table ≡ ok i
      → (field dev 8 == minix1_magic) ≡ true
      → field dev 2 ≤ map_nr
      → field dev 3 ≤ map_nr
      → read_super dev table
        ≡ ok (
          i,
          set table i (record {
            dev = some dev;
            desc = record {
              zmaps = tabulate (field dev 3) (λ k. bread dev (2 + field dev 2 + k));
              imaps = tabulate (field dev 2) (λ k. bread dev (2 + k));
              firstdatazone = field dev 4;
              zones = field dev 1;
              inodes = field dev 0;
            };
          }),
        )
  unfolding read_super
  read_super-maps dev i table free magic imaps zmaps =
      rw
        (
          free,
          magic,
          read_maps-tabulate dev (field dev 2) 0 2 (omega arith),
          read_maps-tabulate dev (field dev 3) 0 (2 + field dev 2) (omega arith),
        )
        refl
