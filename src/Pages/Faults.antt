-- ===== src/Pages/Faults.antt =====
-- Copy on write.
use rdix.Common.{ℕ, ◌+◌, ◌-◌, ◌≤◌, ◌<◌, ◌≡◌, ◌≢◌, ◌⊎◌, refl, true, false, arith, ◌==◌, set}
use rdix.Pages.{Pages, count_of}
use rdix.Pages.Counts.{Counted, taken}
use rdix.Pages.Tables.{Memory, Entry, didx, tidx, entry_at, put, put_entry, entry_init}

-- The address is one of the user's, its page table is there, and its page is in use.
pub record Mapped (m : Memory) (vaddr : ℕ) : Type 0 where
  pub user : 4194304 ≤ vaddr
  pub table : (m.pde (didx vaddr)).present ≡ true
  pub above : m.pages.start ≤ (entry_at m vaddr).index
  pub below : (entry_at m vaddr).index < m.pages.total_pages
  pub used : 0 < count_of m.pages (entry_at m vaddr).index

-- What a task has of its write: the address is writable, on a page that nobody else uses, with the
-- bytes it had before; the page that it had, if it is another, has one user less. Every page in use
-- keeps its bytes, every other one its count, and no other entry but the one of address 0 changes.
-- The number of free pages changes with the pages without a reference.
pub record Private (extra : ℕ) (m m' : Memory) (vaddr : ℕ) : Type 0 where
  pub writable : (entry_at m' vaddr).write ≡ true
  pub alone : count_of m'.pages (entry_at m' vaddr).index ≡ 1
  pub bytes : m'.frames (entry_at m' vaddr).index ≡ m.frames (entry_at m vaddr).index
  pub frames : (k : ℕ) → 0 < count_of m.pages k → m'.frames k ≡ m.frames k
  pub entries : (d t : ℕ) → 0 < d → (d ≢ didx vaddr) ⊎ (t ≢ tidx vaddr) → m'.pte d t ≡ m.pte d t
  pub given :
      ((entry_at m' vaddr).index ≡ (entry_at m vaddr).index)
      ⊎ (count_of m'.pages (entry_at m vaddr).index + 1 ≡ count_of m.pages (entry_at m vaddr).index)
  pub others :
      (k : ℕ)
      → k ≢ (entry_at m vaddr).index
      → 0 < count_of m.pages k
      → count_of m'.pages k ≡ count_of m.pages k
  pub counted : Counted extra m'.pages

pub put_self {ℓ} : {A : Type ℓ} (f : ℕ → A) (i : ℕ) (v : A) → put f i v i ≡ v
put_self f i v = let e : (i == i) ≡ true = ground arith in rw e refl

pub put-ne {ℓ} : {A : Type ℓ} (f : ℕ → A) (i k : ℕ) (v : A) → k ≢ i → put f i v k ≡ f k
put-ne f i k v h = let e : (k == i) ≡ false = ground (arith, h) in rw e refl

module _ (extra : ℕ) (m : Memory) (c : Counted extra m.pages) (vaddr : ℕ) (s : Mapped m vaddr) where
  abbrev here : Entry
  here = entry_at m vaddr

  -- the page with one user less
  abbrev left : Pages
  left = record m.pages {
    p_bit_map = set m.pages.p_bit_map here.index (count_of m.pages here.index - 1);
  }

  -- the memory behind `copy_phy_page`, with the new page `i`
  abbrev copied : ℕ → Memory
  copied i = record m {
    pages = taken left i;
    pte = put_entry m.pte 0 0 (record (entry_init i) { present = false });
    frames = put m.frames i (m.frames here.index);
  }
