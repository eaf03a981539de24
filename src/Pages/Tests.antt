-- ===== src/Pages/Tests.antt =====
-- Runs of the page code, and concrete instances of its theorems.
use rdix.Common.{
  ℕ, zero, suc, ◌+◌, ◌≤◌, ◌<◌, ◌≡◌, ◌%◌, refl, true, false, some, [], ◌∷◌, Outcome, ok, ◌>>=◌,
  arith, get_or,
}
use rdix.Common.Bytes.{test_bit, set_bit}
use rdix.Bitmap.{
  Bitmap, bitmap_init, bitmap_scan, bitmap_set, bitmap_test, scan_loop, fill, bool_eq, write_bit,
}
use rdix.Bitmap.Bits.{IsValid, marked}
use rdix.Pages.{Pages, count_of, find_page, get_p_page, free_p_page, pages_of, page_mode_init}
use rdix.Pages.Booted.{Booted, page_mode_init-Booted}
use rdix.Pages.Counts.{taken}
use rdix.Pages.Fork.{share_entries, users}
use rdix.Pages.Shares.{Bytes, Stored, share_entries_lem, read_only}
use rdix.Pages.Kernel.{alloc_kpage, free_kpage, free_kpage-alloc_kpage}
use rdix.Pages.Leases.{free_p_page-get_p_page}
use rdix.Pages.Tables.{Memory, Entry, unlink_page, get_pte, sys_brk, unlink_loop}

-- six pages, the first two of the kernel; the number of free ones is too high by one
abbrev six : Pages
six = record { total_pages = 6; free_pages = 3; start = 2; p_bit_map = 1 ∷ 1 ∷ 2 ∷ 0 ∷ 1 ∷ 0 ∷ [] }

takes_three : get_p_page six ≡ ok (3, taken six 3)
unfolding get_p_page find_page
takes_three = refl

-- the pages of a machine with 33 MB, behind page_mode_init
abbrev machine : Pages
machine = page_mode_init (pages_of 33554432)

machine-Booted : Booted machine
machine-Booted = page_mode_init-Booted 33554432 (omega arith) (omega arith)

free_p_page-get_p_page_example : (get_p_page machine >>= λ (i, m'). free_p_page i m') ≡ ok machine
free_p_page-get_p_page_example =
    free_p_page-get_p_page machine-Booted.extra machine machine-Booted.counted
      machine-Booted.some_free machine-Booted.bound

-- A task whose entries lead to page 2, which two tasks share.
abbrev shared_entry : Entry
shared_entry = record { present = true; write = false; user = true; index = 2 }

abbrev task_memory : Memory
task_memory = record {
  pages = six;
  frames = λ i k. i + k;
  pde = λ d. shared_entry;
  pte = λ d t. shared_entry;
  vmap = bitmap_init 0 0;
  brk = 25165824;
}

six-Bytes : Bytes six
unfolding Bytes
six-Bytes zero = omega arith
six-Bytes (suc zero) = omega arith
six-Bytes (suc (suc zero)) = omega arith
six-Bytes (suc (suc (suc zero))) = omega arith
six-Bytes (suc (suc (suc (suc zero)))) = omega arith
six-Bytes (suc (suc (suc (suc (suc zero))))) = omega arith
six-Bytes (suc (suc (suc (suc (suc (suc k)))))) = omega arith

six-Stored : Stored (task_memory.pte 6) six 0 3
unfolding Stored
six-Stored s above below present = omega arith

share_entries_lem_example :
    ((k : ℕ)
      → count_of (share_entries 3 6 0 task_memory).pages k
        ≡ (count_of six k + users (λ t. shared_entry) k 0 3) % 256)
    × ((s : ℕ) → 0 ≤ s → s < 3 → (share_entries 3 6 0 task_memory).pte 6 s ≡ read_only shared_entry)
share_entries_lem_example = share_entries_lem 3 6 0 task_memory six-Bytes six-Stored

-- Three entries that lead to one page are three references.
three_more : count_of (share_entries 3 6 0 task_memory).pages 2 ≡ 5
unfolding share_entries
three_more = refl

abbrev brk_and_free : Outcome Memory → Outcome (ℕ × ℕ)
brk_and_free run = run >>= λ m. ok (m.brk, m.pages.free_pages)

-- A break that is set back by a page, which then is free.
one_page_back :
    brk_and_free (
      sys_brk 3 20975616 (record task_memory {
        pages = record six { p_bit_map = 1 ∷ 1 ∷ 1 ∷ 0 ∷ 1 ∷ 0 ∷ [] };
        brk = 20979712;
      }))
    ≡ ok (20975616, 4)
unfolding sys_brk unlink_loop unlink_page get_pte free_p_page
one_page_back = refl

-- eight pages of the kernel from page 256 on, the first of them taken
abbrev kernel_map : Bitmap
kernel_map = record { start = 1 ∷ []; length = 1; offset = 256 }

kernel_map-IsValid : IsValid kernel_map
kernel_map-IsValid = record { storage = omega arith; bytes = small; room = omega arith }
  where
    small : (i : ℕ) → get_or (1 ∷ []) i 0 < 256
    small zero = omega arith
    small (suc i) = omega arith

abbrev kernel_map_after : Bitmap
kernel_map_after = record { start = 7 ∷ []; length = 1; offset = 256 }

two_pages : alloc_kpage 2 kernel_map ≡ ok (some 257, kernel_map_after)
unfolding alloc_kpage bitmap_scan scan_loop fill bitmap_set bitmap_test bool_eq write_bit test_bit
    set_bit
two_pages = refl

free_kpage-alloc_kpage_example :
    (m2 : Bitmap) × (free_kpage 257 2 kernel_map_after ≡ ok m2)
    × IsValid m2
    × ((j : ℕ) → 256 ≤ j → marked m2 j ≡ marked kernel_map j)
free_kpage-alloc_kpage_example =
    free_kpage-alloc_kpage 2 257 kernel_map kernel_map_after kernel_map-IsValid (omega arith)
      (omega arith) two_pages
