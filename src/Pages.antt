-- ===== src/Pages.antt =====
-- kernel/memory.c: the physical pages with their reference counts, the page tables of the current
-- task, and page faults. Interrupts are off in all of it. Addresses are below 2 ^ 32.
pub mod Counts
pub mod Boot
pub mod Booted
pub mod Fork
pub mod Shares
pub mod Kernel
pub mod Leases
pub mod Break
pub mod Faults
pub mod Tables
mod Tests
use rdix.Common.{
  ℕ, zero, suc, ◌+◌, ◌-◌, ◌*◌, ◌/◌, ◌%◌, Bool, true, false, ◌&&◌, List, [], ◌∷◌, ◌++◌, Outcome, ok,
  panic, ◌>>=◌, ◌>>◌, assert, ltb, leb, ◌==◌, if◌then◌else◌, u8, u32, sub32, set, get_or, replicate,
}

-- the physical pages: `start` is `start_available_p_page_idx`
pub record Pages : Type 0 where
  pub total_pages : ℕ
  pub free_pages : ℕ
  pub start : ℕ
  pub p_bit_map : List ℕ

-- how often a page is in use
abbrev pub count_of : Pages → ℕ → ℕ
count_of m i = get_or m.p_bit_map i 0

-- The `for` of `get_p_page`, `n` pages from `i` on. A loop that ends leaves the function without a
-- value.
unfoldable pub find_page : ℕ → ℕ → Pages → Outcome (ℕ × Pages)
find_page zero i m = panic
find_page (suc n) i m =
    let rest = find_page n (i + 1) m in
    if m.free_pages == 0
    then panic
    else if count_of m i == 0
    then ok (i, record m { free_pages = m.free_pages - 1; p_bit_map = set m.p_bit_map i 1 })
    else rest

-- The page is given by its index: callers take PAGE_IDX of the address.
unfoldable pub get_p_page : Pages → Outcome (ℕ × Pages)
unfolding find_page
get_p_page m = find_page (m.total_pages - m.start) m.start m

unfoldable pub free_p_page : ℕ → Pages → Outcome Pages
free_p_page idx m = do
  assert (leb m.start idx && ltb idx m.total_pages)
  assert (leb 1 (count_of m idx))
  let left = count_of m idx - 1
  let free = if left == 0 then m.free_pages + 1 else m.free_pages
  assert (ltb 0 free && ltb free m.total_pages)
  ok (record m { free_pages = free; p_bit_map = set m.p_bit_map idx left })

-- The counts of `memory_init`, for `mem_size` bytes above the first megabyte: the pages below
-- `start`, the table of counts among them, are in use.
unfoldable pub pages_of : ℕ → Pages
pages_of mem_size =
    let total = mem_size / 4096 + 256 in
    let map_pages = (total + 4095) / 4096 in
    record {
      total_pages = total;
      free_pages = sub32 (mem_size / 4096) map_pages;
      start = 256 + map_pages;
      p_bit_map =
          replicate (256 + map_pages) 1 ++ replicate (map_pages * 4096 - (256 + map_pages)) 0;
    }

-- The checks and the counts of `memory_init`.
unfoldable pub memory_init : ℕ → ℕ → Outcome Pages
unfolding pages_of
memory_init mem_base mem_size = do
  assert (mem_base % 4096 == 0 && (mem_size % 4096 == 0))
  assert (mem_base == 1048576)
  ok (pages_of mem_size)

-- `p_bit_map[idx] = 1` of `page_mode_init`, for `n` pages from `idx` on. Page 0 is left out.
unfoldable pub mark_pages : ℕ → ℕ → List ℕ → List ℕ
mark_pages zero idx map = map
mark_pages (suc n) zero map = mark_pages n 1 map
mark_pages (suc n) (suc i) map = mark_pages n (suc i + 1) (set map (suc i) 1)

-- The counts behind `page_mode_init`, which maps the 4096 pages of the first 16 MB.
unfoldable pub page_mode_init : Pages → Pages
unfolding mark_pages
page_mode_init m = record m { p_bit_map = mark_pages 4096 0 m.p_bit_map }
