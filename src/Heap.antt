-- ===== src/Heap.antt =====
-- kernel/malloc.c: blocks of 16 to 4096 bytes in pages of the kernel. A bucket is a page of blocks of
-- one size; the first word of a free block leads to the next one. Interrupts are off in each call.
pub mod Chains
pub mod Lease
mod Tests
use rdix.Common.{
  ℕ, zero, suc, ◌+◌, ◌-◌, ◌*◌, ◌/◌, ◌%◌, Bool, true, false, Option, none, some, List, [], ◌∷◌,
  Outcome, ok, panic, ◌>>=◌, ◌>>◌, assert, ltb, leb, ◌==◌, if◌then◌else◌, u16, get_or,
}
use rdix.Bitmap.{Bitmap}
use rdix.Pages.Kernel.{alloc_kpage, free_kpage}

-- `bucket_desc` in use; `page` is the address of the page.
pub record Bucket : Type 0 where
  pub page : ℕ
  pub freeptr : ℕ
  pub refcnt : ℕ

-- The chains of `bucket_dir`, the number of free descriptors, the words of the memory and the pages
-- of the kernel.
pub record Heap : Type 0 where
  pub chains : ℕ → List Bucket
  pub free_bucket_desc : ℕ
  pub words : ℕ → ℕ
  pub v_bit_map : Bitmap

-- the sizes of `bucket_dir`
abbrev pub sizes : List ℕ
sizes = 16 ∷ 32 ∷ 64 ∷ 128 ∷ 256 ∷ 512 ∷ 1024 ∷ 2048 ∷ 4096 ∷ []

abbrev pub put {ℓ} : {A : Type ℓ} → (ℕ → A) → ℕ → A → ℕ → A
put f i v k = if k == i then v else f k

-- `get_free_page`: the address, NULL as `none`.
unfoldable pub get_free_page : Heap → Outcome (Option ℕ × Heap)
get_free_page h = do
  (found, v) ← alloc_kpage 1 h.v_bit_map
  elim found [
    | none ↦ ok (none, record h { v_bit_map = v })
    | some i ↦ ok (some (i * 4096), record h { v_bit_map = v })
  ]

-- `PANIC` where there is no page.
unfoldable pub page_or_panic : Heap → Outcome (ℕ × Heap)
unfolding get_free_page
page_or_panic h = do
  (found, h') ← get_free_page h
  elim found [ none ↦ panic | some page ↦ ok (page, h') ]

-- The descriptors of a page, 16 bytes each.
unfoldable pub bucket_dec_init : Heap → Outcome Heap
unfolding page_or_panic
bucket_dec_init h = do
  (page, h') ← page_or_panic h
  ok (record h' { free_bucket_desc = h'.free_bucket_desc + 256 })

-- The `for` of `malloc` that links the blocks of a page, `n` of them from `tmp` on.
unfoldable pub link_blocks : ℕ → ℕ → ℕ → (ℕ → ℕ) → ℕ → ℕ
link_blocks zero size tmp words = words
link_blocks (suc zero) size tmp words = put words tmp 0
link_blocks (suc (suc n)) size tmp words =
    link_blocks (suc n) size (tmp + size) (put words tmp (tmp + size))

-- The size class of a request: `k` is the place of the sizes in `bucket_dir`.
unfoldable pub class_from : ℕ → List ℕ → ℕ → Option (ℕ × ℕ)
class_from request [] k = none
class_from request (size ∷ more) k =
    let rest = class_from request more (k + 1) in if leb request size then some (k, size) else rest

-- The first bucket of a chain with a free block: the block, and the chain without it.
unfoldable pub take_block : (ℕ → ℕ) → List Bucket → Option (ℕ × List Bucket)
take_block words [] = none
take_block words (b ∷ bs) =
    let rest = take_block words bs in
    if b.freeptr == 0
    then elim rest [ none ↦ none | some (block, bs') ↦ some (block, b ∷ bs') ]
    else some (b.freeptr, record b { freeptr = words b.freeptr; refcnt = u16 (b.refcnt + 1) } ∷ bs)

-- A bucket of a new page, with its first block taken.
unfoldable pub new_bucket : ℕ → ℕ → Heap → Outcome (ℕ × Heap)
unfolding bucket_dec_init page_or_panic link_blocks
new_bucket k size h = do
  h1 ← (if h.free_bucket_desc == 0 then bucket_dec_init h else ok h)
  (page, h2) ← page_or_panic (record h1 { free_bucket_desc = h1.free_bucket_desc - 1 })
  let words = link_blocks (4096 / size) size page h2.words
  let b : Bucket = record { page = page; freeptr = words page; refcnt = 1 }
  ok (page, record h2 { words = words; chains = put h2.chains k (b ∷ h2.chains k) })

unfoldable pub malloc : ℕ → Heap → Outcome (ℕ × Heap)
unfolding class_from take_block new_bucket
malloc requist_size h = elim (class_from requist_size sizes 0) [
  | none ↦ panic
  | some (k, size) ↦ elim (take_block h.words (h.chains k)) [
    | none ↦ new_bucket k size h
    | some (block, bs) ↦ ok (block, record h { chains = put h.chains k bs })
  ]
]

-- What becomes of a bucket that gets a block back: it stays, or its page is free.
pub data Returned : Type 0 where
  stays : Bucket → Returned
  empties : ℕ → Returned

unfoldable pub give_block : ℕ → Bucket → Returned
give_block obj b =
    let left = u16 (b.refcnt + 65535) in
    if left == 0 then empties b.page else stays (record b { freeptr = obj; refcnt = left })

-- The search of a chain for the bucket of a page: the old `freeptr`, the page to free, and the chain
-- with the block back.
unfoldable pub give_in : ℕ → ℕ → List Bucket → Option (ℕ × (Option ℕ × List Bucket))
unfolding give_block
give_in obj page [] = none
give_in obj page (b ∷ bs) =
    let rest = give_in obj page bs in
    if b.page == page
    then elim (give_block obj b) [
      | (stays b') ↦ some (b.freeptr, (none, b' ∷ bs))
      | (empties p) ↦ some (b.freeptr, (some p, bs))
    ]
    else elim rest [ none ↦ none | some (old, (gone, bs')) ↦ some (old, (gone, b ∷ bs')) ]

-- Behind `found_bdesc`, for the chain `k`.
unfoldable pub found_bdesc : ℕ → ℕ → ℕ → Option ℕ → List Bucket → Heap → Outcome Heap
found_bdesc obj k old none bs h =
    ok (record h { words = put h.words obj old; chains = put h.chains k bs })
found_bdesc obj k old (some page) bs h = do
  v ← free_kpage (page / 4096) 1 h.v_bit_map
  ok (record h {
    words = put h.words obj old;
    chains = put h.chains k bs;
    v_bit_map = v;
    free_bucket_desc = h.free_bucket_desc + 1;
  })

-- The search of `free_s` through the sizes, from place `k` on.
unfoldable pub free_from : ℕ → ℕ → List ℕ → ℕ → Heap → Outcome Heap
unfolding give_in found_bdesc
free_from obj size [] k h = panic
free_from obj size (s ∷ more) k h =
    let rest = free_from obj size more (k + 1) h in
    if ltb s size then rest else elim (give_in obj (obj - obj % 4096) (h.chains k)) [
      | none ↦ rest
      | some (old, (gone, bs)) ↦ found_bdesc obj k old gone bs h
    ]

unfoldable pub free_s : ℕ → ℕ → Heap → Outcome Heap
unfolding free_from
free_s obj size h = free_from obj size sizes 0 h
