-- ===== src/Pages/Tables.antt =====
-- kernel/memory.c: the page tables of the current task, page faults, and the break.
use rdix.Common.{
  ℕ, zero, suc, ◌+◌, ◌-◌, ◌/◌, ◌%◌, Bool, true, false, ◌&&◌, not, Option, none, some, Outcome, ok,
  panic, out_of_fuel, ◌>>=◌, ◌>>◌, assert, ltb, leb, ◌==◌, if◌then◌else◌, u32, set,
}
use rdix.Bitmap.{Bitmap, bitmap_test}
use rdix.Pages.{Pages, count_of, get_p_page, free_p_page}

abbrev pub kernel_memery_size : ℕ
kernel_memery_size = 20971520

abbrev pub user_stack_top : ℕ
user_stack_top = 155189248

abbrev pub user_stack_bottom : ℕ
user_stack_bottom = 153092096

-- the bits of an entry that the code reads or writes
pub record Entry : Type 0 where
  pub present : Bool
  pub write : Bool
  pub user : Bool
  pub index : ℕ

-- The memory as the current task sees it: `pte d` is the page table of the directory's entry `d`,
-- and `frames` the bytes of each physical page.
pub record Memory : Type 0 where
  pub pages : Pages
  pub frames : ℕ → ℕ → ℕ
  pub pde : ℕ → Entry
  pub pte : ℕ → ℕ → Entry
  pub vmap : Bitmap
  pub brk : ℕ

-- DIDX
abbrev pub didx : ℕ → ℕ
didx vaddr = vaddr / 4194304

-- TIDX
abbrev pub tidx : ℕ → ℕ
tidx vaddr = vaddr / 4096 % 1024

unfoldable pub entry_init : ℕ → Entry
entry_init pg_idx = record { present = true; write = true; user = true; index = pg_idx }

-- an entry of a page of zeros
abbrev pub no_entry : Entry
no_entry = record { present = false; write = false; user = false; index = 0 }

abbrev pub put {ℓ} : {A : Type ℓ} → (ℕ → A) → ℕ → A → ℕ → A
put f i v k = if k == i then v else f k

abbrev pub put_entry : (ℕ → ℕ → Entry) → ℕ → ℕ → Entry → ℕ → ℕ → Entry
put_entry pte d t e = put pte d (put (pte d) t e)

abbrev pub entry_at : Memory → ℕ → Entry
entry_at m vaddr = m.pte (didx vaddr) (tidx vaddr)

abbrev pub with_entry : Memory → ℕ → Entry → Memory
with_entry m vaddr e = record m { pte = put_entry m.pte (didx vaddr) (tidx vaddr) e }

-- The memory with the page table of `vaddr` in it.
unfoldable pub get_pte : ℕ → Bool → Memory → Outcome Memory
unfolding entry_init
get_pte vaddr exist m = if (m.pde (didx vaddr)).present then ok m else (do
  assert (not exist)
  (i, p) ← get_p_page m.pages
  ok (record m {
    pages = p;
    pde = put m.pde (didx vaddr) (entry_init i);
    pte = put m.pte (didx vaddr) (λ t. no_entry);
  }))

unfoldable pub link_page : ℕ → Memory → Outcome Memory
unfolding get_pte
link_page vaddr m = do
  m1 ← get_pte vaddr false m
  claimed ← bitmap_test m1.vmap (vaddr / 4096)
  assert claimed
  if (entry_at m1 vaddr).present then ok m1 else (do
    (i, p) ← get_p_page m1.pages
    ok (with_entry (record m1 { pages = p }) vaddr (entry_init i)))

unfoldable pub unlink_page : ℕ → Memory → Outcome Memory
unfolding get_pte
unlink_page vaddr m = do
  m1 ← get_pte vaddr true m
  assert (entry_at m1 vaddr).present
  let m2 = with_entry m1 vaddr (record (entry_at m1 vaddr) { present = false })
  p ← free_p_page (entry_at m1 vaddr).index m2.pages
  ok (record m2 { pages = p })

-- A new page, mapped at address 0 for the time of the copy.
unfoldable pub borrow_page : Memory → Outcome (ℕ × Memory)
borrow_page m = do
  (i, p) ← get_p_page m.pages
  ok (
    i,
    record m { pages = p; pte = put_entry m.pte 0 0 (record (entry_init i) { present = false }) },
  )

-- A copy of the page at `page`, which is mapped.
unfoldable pub copy_phy_page : ℕ → Memory → Outcome (ℕ × Memory)
unfolding borrow_page
copy_phy_page page m = do
  assert (page % 4096 == 0)
  (i, m1) ← borrow_page m
  ok (i, record m1 { frames = put m1.frames i (m.frames (entry_at m page).index) })

-- A write to a page that is mapped for reading.
unfoldable pub write_fault : ℕ → Memory → Outcome Memory
unfolding get_pte copy_phy_page
write_fault vaddr m = do
  m1 ← get_pte vaddr true m
  let e = entry_at m1 vaddr
  assert (ltb 0 (count_of m1.pages e.index))
  if count_of m1.pages e.index == 1
      then ok (with_entry m1 vaddr (record e { write = true }))
      else (do
        let left = set m1.pages.p_bit_map e.index (count_of m1.pages e.index - 1)
        let m2 = record m1 { pages = record m1.pages { p_bit_map = left } }
        (i, m3) ← copy_phy_page (vaddr - vaddr % 4096) m2
        ok (with_entry m3 vaddr (entry_init i)))

-- `page_fault` with the bits `present` and `write` of the error code. It is `none` where the task
-- ends in the loop behind ERROR.
unfoldable pub page_fault : ℕ → Bool → Bool → Memory → Outcome (Option Memory)
unfolding link_page write_fault
page_fault vaddr present write m =
    if ltb vaddr 4096
    then ok none
    else if ltb vaddr user_stack_bottom && leb (user_stack_bottom - 4096) vaddr
    then ok none
    else if not (leb kernel_memery_size vaddr && ltb vaddr user_stack_top)
    then ok none
    else if leb m.brk vaddr && ltb vaddr user_stack_bottom
    then ok none
    else if not present
    then (do m' ← link_page vaddr m; ok (some m'))
    else if write
    then (do m' ← write_fault vaddr m; ok (some m'))
    else ok none

-- The `for` of `sys_brk`, on fuel.
unfoldable pub unlink_loop : ℕ → ℕ → ℕ → ℕ → Memory → Outcome Memory
unfolding unlink_page
unlink_loop zero tmp_brk old_brk brk m = out_of_fuel
unlink_loop (suc f) tmp_brk old_brk brk m =
    if ltb tmp_brk old_brk
    then ◌>>=◌ (unlink_page brk m) (λ m'. unlink_loop f (u32 (tmp_brk + 4096)) old_brk brk m')
    else ok m

-- The first `assert` compares a Boolean with the end of the user's memory, and always holds.
unfoldable pub sys_brk : ℕ → ℕ → Memory → Outcome Memory
unfolding unlink_loop
sys_brk fuel brk m = do
  m' ←
      (if ltb brk m.brk
        then unlink_loop fuel brk m.brk brk m
        else if ltb m.pages.free_pages ((brk - m.brk) / 4096)
        then panic
        else ok m)
  ok (record m' { brk = brk })
