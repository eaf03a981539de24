-- ===== src/Pages/Fork.antt =====
-- `copy_pde` and `free_pde` of kernel/memory.c: the tables of a new task, and those of a task that
-- ends.
use rdix.Common.{
  ℕ, zero, suc, ◌+◌, Bool, false, not, none, some, Outcome, ok, panic, ◌>>=◌, ◌>>◌, assert, ltb,
  ◌==◌, if◌then◌else◌, set, u8,
}
use rdix.Bitmap.{Bitmap, bitmap_scan, bitmap_set}
use rdix.Pages.{count_of, free_p_page}
use rdix.Pages.Tables.{Memory, Entry, put, put_entry, entry_init, borrow_page}

-- The inner `for` of `copy_pde`, `n` entries of table `d` from `t` on. Its `assert` compares a
-- Boolean with 255, and always holds.
unfoldable pub share_entries : ℕ → ℕ → ℕ → Memory → Memory
share_entries zero d t m = m
share_entries (suc n) d t m =
    let e = m.pte d t in
    let m1 =
      if e.present
      then record m {
        pte = put_entry m.pte d t (record e { write = false });
        pages = record m.pages {
          p_bit_map = set m.pages.p_bit_map e.index (u8 (count_of m.pages e.index + 1));
        };
      }
      else m in
    share_entries n d (t + 1) m1

-- the directory and the tables of another task
pub record Space : Type 0 where
  pub pde : ℕ → Entry
  pub pte : ℕ → ℕ → Entry

-- The outer `for`, `n` entries of the directory from `d` on. The copy of a table has its entries.
unfoldable pub copy_tables : ℕ → ℕ → Space → Memory → Outcome (Space × Memory)
unfolding share_entries borrow_page
copy_tables zero d child m = ok (child, m)
copy_tables (suc n) d child m =
    if (m.pde d).present
    then (do
      let m1 = share_entries 1024 d 0 m
      (i, m2) ← borrow_page m1
      let child1 : Space = record {
        pde = put child.pde d (record (child.pde d) { index = i });
        pte = put child.pte d (m1.pte d);
      }
      copy_tables n (d + 1) child1 m2)
    else copy_tables n (d + 1) child m

-- The directory of the child is at page `page` of the kernel, whose pages are `v_bit_map`; without a
-- free one the copy is written to address 0.
unfoldable pub copy_pde : Bitmap → Memory → Outcome (Bitmap × (ℕ × (Space × Memory)))
unfolding copy_tables entry_init
copy_pde v_bit_map m = do
  (found, v1) ← bitmap_scan v_bit_map 1
  elim found [
    | none ↦ panic
    | some page ↦
        let child : Space = record { pde = put m.pde 1023 (entry_init page); pte = m.pte } in
        ◌>>=◌ (copy_tables 1018 5 child m) (λ (child', m'). ok (v1, (page, (child', m'))))
  ]

-- The inner `for` of `free_pde`.
unfoldable pub drop_entries : ℕ → ℕ → ℕ → Memory → Outcome Memory
drop_entries zero d t m = ok m
drop_entries (suc n) d t m =
    let e = m.pte d t in
    if e.present
    then (do
      assert (ltb 0 (count_of m.pages e.index))
      p ← free_p_page e.index m.pages
      drop_entries n d (t + 1) (record m { pages = p }))
    else drop_entries n d (t + 1) m

unfoldable pub drop_tables : ℕ → ℕ → Memory → Outcome Memory
unfolding drop_entries
drop_tables zero d m = ok m
drop_tables (suc n) d m =
    if (m.pde d).present
    then (do
      m1 ← drop_entries 1024 d 0 m
      p ← free_p_page (m1.pde d).index m1.pages
      drop_tables n (d + 1) (record m1 { pages = p }))
    else drop_tables n (d + 1) m

-- `page` is that of the directory. The `printk` is left out.
unfoldable pub free_pde : Bool → ℕ → Bitmap → Memory → Outcome (Bitmap × Memory)
unfolding drop_tables
free_pde kernel_uid page v_bit_map m = do
  assert (not kernel_uid)
  m1 ← drop_tables 1018 5 m
  (changed, v1) ← bitmap_set v_bit_map page false
  assert changed
  ok (v1, m1)

-- How many of the `n` entries of table `row` from `t` on lead to page `k`.
unfoldable pub users : (ℕ → Entry) → ℕ → ℕ → ℕ → ℕ
users row k t zero = 0
users row k t (suc n) =
    let rest = users row k (t + 1) n in
    if (row t).present then (if (row t).index == k then suc rest else rest) else rest
