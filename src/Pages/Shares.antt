-- ===== src/Pages/Shares.antt =====
-- The counts that a fork leaves.
use mathlib.Core.Path.{subst}
use rdix.Common.{
  ℕ, zero, suc, ◌+◌, ◌%◌, ◌≤◌, ◌<◌, ◌≡◌, inl, inr, refl, sym, ap, ◌∙◌, true, false, arith, ◌==◌,
  if◌then◌else◌, Bool-cases, ==→eq, ==→ne, set, length, get_or-set_self, get_or-set_ne, length-set,
  u8,
}
use rdix.Pages.{Pages, count_of}
use rdix.Pages.Faults.{put_self, put-ne}
use rdix.Pages.Tables.{Memory, Entry, put, put_entry}
use rdix.Pages.Fork.{share_entries, users}

users-ext :
    (row row' : ℕ → Entry) (k t n : ℕ)
    → ((s : ℕ) → t ≤ s → row' s ≡ row s)
    → users row' k t n ≡ users row k t n
unfolding users
users-ext row row' k t zero same = refl
users-ext row row' k t (suc n) same =
    rw (same t (omega arith), users-ext row row' k (t + 1) n (λ s h. same s (omega arith))) refl

-- The counts are bytes.
unfoldable pub Bytes : Pages → Type 0
Bytes p = (k : ℕ) → count_of p k < 256

-- The pages of the `n` entries of `row` from `t` on are in the table of counts.
unfoldable pub Stored : (ℕ → Entry) → Pages → ℕ → ℕ → Type 0
Stored row p t n =
    (s : ℕ) → t ≤ s → s < t + n → (row s).present ≡ true → (row s).index < length p.p_bit_map

-- the memory behind one round with a present entry
abbrev shared_once : ℕ → ℕ → Memory → Memory
shared_once d t m = record m {
  pte = put_entry m.pte d t (record (m.pte d t) { write = false });
  pages = record m.pages {
    p_bit_map =
        set m.pages.p_bit_map (m.pte d t).index (u8 (count_of m.pages (m.pte d t).index + 1));
  };
}

share_entries-step :
    (n d t : ℕ) (m : Memory)
    → (m.pte d t).present ≡ true
    → share_entries (suc n) d t m ≡ share_entries n d (t + 1) (shared_once d t m)
unfolding share_entries
share_entries-step n d t m b = rw b refl

share_entries-skip :
    (n d t : ℕ) (m : Memory)
    → (m.pte d t).present ≡ false
    → share_entries (suc n) d t m ≡ share_entries n d (t + 1) m
unfolding share_entries
share_entries-skip n d t m b = rw b refl

users-step :
    (row : ℕ → Entry) (k t n : ℕ)
    → users row k t (suc n)
      ≡ users row k (t + 1) n
        + (if (row t).present then (if (row t).index == k then 1 else 0) else 0)
unfolding users
users-step row k t n = elim (Bool-cases (row t).present) [
  | inr b ↦ rw b (omega arith)
  | inl b ↦ elim (Bool-cases ((row t).index == k)) [
    | inl b' ↦ rw (b, b') (omega arith)
    | inr b' ↦ rw (b, b') (omega arith)
  ]
]

no_entries :
    (d t : ℕ) (m : Memory) (k : ℕ)
    → count_of m.pages k < 256
    → count_of (share_entries 0 d t m).pages k ≡ (count_of m.pages k + users (m.pte d) k t 0) % 256
unfolding share_entries users
no_entries d t m k h = omega (arith, h)

-- The counts behind share_entries: each page has one more for each present entry that leads to it,
-- on eight bits.
pub share_entries-users :
    (n d t : ℕ) (m : Memory)
    → Bytes m.pages
    → Stored (m.pte d) m.pages t n
    → (k : ℕ)
    → count_of (share_entries n d t m).pages k ≡ (count_of m.pages k + users (m.pte d) k t n) % 256
unfolding Bytes Stored
share_entries-users zero d t m bytes stored k = no_entries d t m k (bytes k)
share_entries-users (suc n) d t m bytes stored k = elim (Bool-cases (m.pte d t).present) [
  | inr b ↦
      let rest =
        share_entries-users n d (t + 1) m bytes (λ s h h' p. stored s (omega arith) (omega arith) p)
          k in
      let count : users (m.pte d) k t (suc n) ≡ users (m.pte d) k (t + 1) n =
        users-step (m.pte d) k t n ∙ (rw b (omega arith)) in
      rw (share_entries-skip n d t m b, count) rest
  | inl b ↦
      let m1 = shared_once d t m in
      let j = (m.pte d t).index in
      let new = u8 (count_of m.pages j + 1) in
      let in_map : j < length m.pages.p_bit_map = stored t (omega arith) (omega arith) b in
      let row : m1.pte d ≡ put (m.pte d) t (record (m.pte d t) { write = false }) =
        put_self m.pte d (put (m.pte d) t (record (m.pte d t) { write = false })) in
      let later : (s : ℕ) → t + 1 ≤ s → m1.pte d s ≡ m.pte d s = λ s h.
        ap (λ r. r s) row
        ∙ put-ne (m.pte d) t s (record (m.pte d t) { write = false }) (λ e. omega (arith, e, h)) in
      let at_j : count_of m1.pages j ≡ new = get_or-set_self m.pages.p_bit_map j new 0 in_map in
      let same_users = users-ext (m.pte d) (m1.pte d) k (t + 1) n later in
      let bytes1 : (k : ℕ) → count_of m1.pages k < 256 = λ k. elim (Bool-cases (j == k)) [
        | inl b' ↦ omega (arith, at_j, ap (count_of m1.pages) (==→eq j k b'))
        | inr b' ↦ omega (arith, bytes k, get_or-set_ne m.pages.p_bit_map j k new 0 (==→ne j k b'))
      ] in
      let stored1 : (s : ℕ)
          → t + 1 ≤ s
          → s < t + 1 + n
          → (m1.pte d s).present ≡ true
          → (m1.pte d s).index < length m1.pages.p_bit_map =
        λ s h h' p.
          let old =
            stored s (omega arith) (omega arith) (ap (λ e. e.present) (sym (later s h)) ∙ p) in
          omega (arith, old, ap (λ e. e.index) (later s h), length-set m.pages.p_bit_map j new) in
      let rest = share_entries-users n d (t + 1) m1 bytes1 stored1 k in
      elim (Bool-cases (j == k)) [
        | inl b' ↦
            let at_k : count_of m1.pages k ≡ u8 (count_of m.pages k + 1) =
              ap (count_of m1.pages) (sym (==→eq j k b'))
              ∙ at_j
              ∙ ap (λ i. u8 (count_of m.pages i + 1)) (==→eq j k b') in
            let count : users (m.pte d) k t (suc n) ≡ users (m.pte d) k (t + 1) n + 1 =
              users-step (m.pte d) k t n ∙ (rw (b, b') refl) in
            rw (share_entries-step n d t m b) (omega (arith, rest, same_users, at_k, count))
        | inr b' ↦
            let at_k : count_of m1.pages k ≡ count_of m.pages k =
              get_or-set_ne m.pages.p_bit_map j k new 0 (==→ne j k b') in
            let count : users (m.pte d) k t (suc n) ≡ users (m.pte d) k (t + 1) n =
              users-step (m.pte d) k t n ∙ (rw (b, b') (omega arith)) in
            rw (share_entries-step n d t m b) (omega (arith, rest, same_users, at_k, count))
      ]
]

-- A page that 255 entries lead to is counted as free when share_entries meets one more.
pub share_entries-overflow :
    (n d t : ℕ) (m : Memory)
    → Bytes m.pages
    → Stored (m.pte d) m.pages t n
    → (k : ℕ) → count_of m.pages k ≡ 255
    → users (m.pte d) k t n ≡ 1
    → count_of (share_entries n d t m).pages k ≡ 0
share_entries-overflow n d t m bytes stored k full one =
    omega (arith, share_entries-users n d t m bytes stored k, full, one)

-- the entry as `copy_pde` leaves it
abbrev pub read_only : Entry → Entry
read_only e = if e.present then record e { write = false } else e

no_change : (d t : ℕ) (m : Memory) (s : ℕ) → (share_entries 0 d t m).pte d s ≡ m.pte d s
unfolding share_entries
no_change d t m s = refl

-- An entry that is behind the loop stays as it is.
share_entries-before :
    (n d t : ℕ) (m : Memory) (s : ℕ) → s < t → (share_entries n d t m).pte d s ≡ m.pte d s
share_entries-before zero d t m s h = no_change d t m s
share_entries-before (suc n) d t m s h = elim (Bool-cases (m.pte d t).present) [
  | inl b ↦ rw (share_entries-step n d t m b) (
      share_entries-before n d (t + 1) (shared_once d t m) s (omega arith)
      ∙ ap (λ r. r s) (put_self m.pte d (put (m.pte d) t (record (m.pte d t) { write = false })))
      ∙ put-ne (m.pte d) t s (record (m.pte d t) { write = false }) (λ e. omega (arith, e, h)))
  | inr b ↦ rw (share_entries-skip n d t m b) (share_entries-before n d (t + 1) m s (omega arith))
]

first : (n d t : ℕ) (m : Memory) → (share_entries (suc n) d t m).pte d t ≡ read_only (m.pte d t)
first n d t m =
    let e = m.pte d t in
    let closed : Entry = record e { write = false } in
    elim (Bool-cases e.present) [
      | inl b ↦
          let as_written : read_only e ≡ closed = ap (λ p. if p then closed else e) b in
          rw (share_entries-step n d t m b) (
            share_entries-before n d (t + 1) (shared_once d t m) t (omega arith)
            ∙ ap (λ r. r t) (put_self m.pte d (put (m.pte d) t closed))
            ∙ put_self (m.pte d) t closed
            ∙ sym as_written)
      | inr b ↦
          let as_was : read_only e ≡ e = ap (λ p. if p then closed else e) b in
          rw (share_entries-skip n d t m b)
            (share_entries-before n d (t + 1) m t (omega arith) ∙ sym as_was)
    ]

-- share_entries leaves each of its entries present or not, on the page it had, and no longer
-- writable.
pub share_entries-read_only :
    (n d t : ℕ) (m : Memory) (s : ℕ)
    → t ≤ s
    → s < t + n
    → (share_entries n d t m).pte d s ≡ read_only (m.pte d s)
share_entries-read_only zero d t m s above below = absurd (omega arith)
share_entries-read_only (suc n) d t m s above below = elim (Bool-cases (t == s)) [
  | inl b ↦
      subst (λ s. (share_entries (suc n) d t m).pte d s ≡ read_only (m.pte d s)) (==→eq t s b)
        (first n d t m)
  | inr b ↦
      let beyond : t + 1 ≤ s = omega (arith, above, ==→ne t s b) in
      elim (Bool-cases (m.pte d t).present) [
        | inl b' ↦ rw (share_entries-step n d t m b') (
            share_entries-read_only n d (t + 1) (shared_once d t m) s beyond (omega arith)
            ∙ ap read_only (
                ap (λ r. r s)
                  (put_self m.pte d (put (m.pte d) t (record (m.pte d t) { write = false })))
                ∙ put-ne (m.pte d) t s (record (m.pte d t) { write = false })
                    (λ e. omega (arith, e, beyond))))
        | inr b' ↦
            rw (share_entries-skip n d t m b')
              (share_entries-read_only n d (t + 1) m s beyond (omega arith))
      ]
]

-- Where the counts are bytes and the pages of the entries are in the table of counts, the loop of
-- copy_pde over a page table adds to the count of each page the number of present entries that lead
-- to it, modulo 256, and leaves each entry as it was but not writable.
pub share_entries_lem :
    (n d t : ℕ) (m : Memory)
    → Bytes m.pages
    → Stored (m.pte d) m.pages t n
    → ((k : ℕ)
        → count_of (share_entries n d t m).pages k
          ≡ (count_of m.pages k + users (m.pte d) k t n) % 256)
      × ((s : ℕ) → t ≤ s → s < t + n → (share_entries n d t m).pte d s ≡ read_only (m.pte d s))
share_entries_lem n d t m bytes stored =
    (share_entries-users n d t m bytes stored, share_entries-read_only n d t m)
