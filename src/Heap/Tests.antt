-- ===== src/Heap/Tests.antt =====
-- Runs of the heap, and a concrete instance of its theorem.
use rdix.Common.{
  ℕ, zero, suc, ◌+◌, ◌≡◌, refl, sym, ◌∙◌, true, some, List, [], ◌∷◌, arith, ok, panic, Outcome,
  ◌>>=◌,
}
use rdix.Common.Bytes.{test_bit, set_bit, clear_bit}
use rdix.Bitmap.{bitmap_scan, bitmap_set, bitmap_test, scan_loop, fill, bool_eq, write_bit}
use rdix.Pages.Kernel.{alloc_kpage, free_kpage}
use rdix.Heap.{
  Bucket, Heap, put, class_from, take_block, give_block, give_in, found_bdesc, free_from,
  new_bucket, bucket_dec_init, page_or_panic, get_free_page, link_blocks, malloc, free_s,
}
use rdix.Heap.Chains.{has_page, Sound, IsSound}
use rdix.Heap.Lease.{AsBefore, free_s-malloc}

-- One page, that of the address 4096 * 300, has blocks of 32 bytes; the first one is in use.
abbrev bucket : Bucket
bucket = record { page = 1228800; freeptr = 1228832; refcnt = 1 }

abbrev one_chain : ℕ → List Bucket
one_chain zero = []
one_chain (suc zero) = bucket ∷ []
one_chain (suc (suc k)) = []

abbrev small_heap : Heap
small_heap = record {
  chains = one_chain;
  free_bucket_desc = 5;
  words = λ a. a + 32;
  v_bit_map = record { start = 1 ∷ []; length = 1; offset = 300 };
}

small_heap-each : (k : ℕ) → Sound (small_heap.chains k)
unfolding Sound has_page
small_heap-each zero = tt
small_heap-each (suc zero) = (λ h. refl, omega arith, omega arith, refl, tt)
small_heap-each (suc (suc k)) = tt

in_one : (k page : ℕ) → has_page page (one_chain k) ≡ true → k ≡ 1
unfolding has_page
in_one zero page e = cc
in_one (suc zero) page e = refl
in_one (suc (suc k)) page e = cc

small_heap-IsSound : IsSound small_heap
small_heap-IsSound = record {
  each = small_heap-each;
  apart = λ j k page e e'. in_one j page e ∙ sym (in_one k page e');
}

fits_two : class_from 20 (16 ∷ 32 ∷ 64 ∷ 128 ∷ 256 ∷ 512 ∷ 1024 ∷ 2048 ∷ 4096 ∷ []) 0 ≡ some (1, 32)
unfolding class_from
fits_two = refl

takes_second :
    take_block small_heap.words (bucket ∷ [])
    ≡ some (1228832, record bucket { freeptr = 1228864; refcnt = 2 } ∷ [])
unfolding take_block
takes_second = refl

free_s-malloc_example :
    (h1 : Heap) × (h2 : Heap) × (malloc 20 small_heap ≡ ok (1228832, h1))
    × (free_s 1228832 0 (record h1 { words = put h1.words 1228832 99 }) ≡ ok h2)
    × AsBefore small_heap h2
free_s-malloc_example =
    free_s-malloc 20 1 32 0 99 1228832 (record bucket { freeptr = 1228864; refcnt = 2 } ∷ [])
      small_heap small_heap-IsSound fits_two takes_second (omega arith)

-- what is seen of a heap with a new bucket
abbrev seen : Outcome (ℕ × Heap) → Outcome (ℕ × List Bucket)
seen run = run >>= λ r. ok (r.0, r.1.chains 8)

-- A request of a whole page opens a new bucket, at the second page.
new_page :
    seen (malloc 4000 small_heap)
    ≡ ok (1232896, record { page = 1232896; freeptr = 0; refcnt = 1 } ∷ [])
unfolding malloc class_from take_block new_bucket bucket_dec_init page_or_panic get_free_page
    link_blocks alloc_kpage bitmap_scan scan_loop fill bitmap_set bitmap_test bool_eq write_bit
    test_bit set_bit
new_page = refl

-- A request of more than a page stops the kernel.
too_large : malloc 4097 small_heap ≡ panic
unfolding malloc class_from
too_large = refl

abbrev left_over : Outcome Heap → Outcome (List Bucket × ℕ)
left_over run = run >>= λ h. ok (h.chains 1, h.free_bucket_desc)

-- The last block that goes back frees the page.
last_block : left_over (free_s 1228800 32 small_heap) ≡ ok ([], 6)
unfolding free_s free_from give_in give_block found_bdesc free_kpage bitmap_set bitmap_test bool_eq
    write_bit test_bit clear_bit
last_block = refl
