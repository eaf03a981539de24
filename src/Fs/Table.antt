-- ===== src/Fs/Table.antt =====
-- The table of inodes in memory: sums over its entries, and the two searches.
use rdix.Common.{
  ℕ, zero, suc, ◌+◌, ◌≤◌, ◌<◌, ◌≡◌, inl, inr, refl, sym, ap, Bool, true, false, none, some, List,
  [], ◌∷◌, arith, ok, Bool-cases, Option-cases, some-inj, none-ne-some, if◌then◌else◌, get_elem?,
  set,
}
use rdix.Fs.{MInode, is_free, is_inode, find_inode, get_free_inode}

abbrev pub mark : Bool → ℕ
mark true = 1
mark false = 0

abbrev pub total : (MInode → ℕ) → List MInode → ℕ
total f [] = 0
total f (inode ∷ table) = f inode + total f table

-- How many entries are that inode, and how many users they have.
abbrev pub copies : ℕ → ℕ → List MInode → ℕ
copies dev nr = total (λ inode. mark (is_inode dev nr inode))

abbrev pub users_in : ℕ → ℕ → MInode → ℕ
users_in dev nr inode = if is_inode dev nr inode then inode.count else 0

abbrev pub users : ℕ → ℕ → List MInode → ℕ
users dev nr = total (users_in dev nr)

abbrev pub free_entries : List MInode → ℕ
free_entries = total (λ inode. mark (is_free inode.dev))

pub total-set :
    (f : MInode → ℕ) (table : List MInode) (i : ℕ) (new old : MInode)
    → get_elem? table i ≡ some old
    → total f (set table i new) + f old ≡ total f table + f new
total-set f [] i new old e = absurd (none-ne-some e)
total-set f (x ∷ table) zero new old e = let same = some-inj e in rw same (omega arith)
total-set f (x ∷ table) (suc i) new old e = omega (arith, total-set f table i new old e)

pub total-get_elem? :
    (f : MInode → ℕ) (table : List MInode) (i : ℕ) (old : MInode)
    → get_elem? table i ≡ some old
    → f old ≤ total f table
total-get_elem? f [] i old e = absurd (none-ne-some e)
total-get_elem? f (x ∷ table) zero old e = let same = some-inj e in rw (← same) (omega arith)
total-get_elem? f (x ∷ table) (suc i) old e = omega (arith, total-get_elem? f table i old e)

-- The search of an inode ends at one, or there is none.
pub find_inode-some :
    (dev nr k : ℕ) (table : List MInode) (j : ℕ)
    → find_inode dev nr k table ≡ some j
    → (i : ℕ) × (inode : MInode) × (j ≡ k + i)
      × (get_elem? table i ≡ some inode)
      × (is_inode dev nr inode ≡ true)
unfolding find_inode
find_inode-some dev nr k [] j e = absurd (none-ne-some e)
find_inode-some dev nr k (x ∷ table) j e = elim (Bool-cases (is_inode dev nr x)) [
  | inl b ↦ let here : k ≡ j = some-inj (rw (b, find_inode) at e) in (0, x, omega arith, refl, b)
  | inr b ↦
      let (i, inode, at, found, same) =
        find_inode-some dev nr (k + 1) table j (rw (b, find_inode) at e) in
      (suc i, inode, omega arith, found, same)
]

pub find_inode-none :
    (dev nr k : ℕ) (table : List MInode)
    → find_inode dev nr k table ≡ none
    → (copies dev nr table ≡ 0) × (users dev nr table ≡ 0)
unfolding find_inode
find_inode-none dev nr k [] e = (refl, refl)
find_inode-none dev nr k (x ∷ table) e = elim (Bool-cases (is_inode dev nr x)) [
  | inl b ↦ absurd (none-ne-some (sym (rw (b, find_inode) at e)))
  | inr b ↦
      let (no_copies, no_users) = find_inode-none dev nr (k + 1) table (rw (b, find_inode) at e) in
      (rw b (omega (arith, no_copies)), rw b (omega (arith, no_users)))
]

left :
    (x : MInode) (table : List MInode)
    → is_free x.dev ≡ false
    → 0 < free_entries (x ∷ table)
    → 0 < free_entries table
left x table b room = let more : 0 < 0 + free_entries table = rw b at room in omega arith

pub get_free_inode-ok :
    (k : ℕ) (table : List MInode)
    → 0 < free_entries table
    → (i : ℕ) × (inode : MInode) × (get_free_inode k table ≡ ok (k + i))
      × (get_elem? table i ≡ some inode)
      × (is_free inode.dev ≡ true)
unfolding get_free_inode
get_free_inode-ok k [] room = absurd (omega arith)
get_free_inode-ok k (x ∷ table) room = elim (Bool-cases (is_free x.dev)) [
  | inl b ↦ (0, x, rw b (ap ok (omega arith)), refl, b)
  | inr b ↦
      let (i, inode, run, found, free) = get_free_inode-ok (k + 1) table (left x table b room) in
      let at : k + 1 + i ≡ k + suc i = omega arith in
      (suc i, inode, rw (b, run) (ap ok at), found, free)
]

pub false-ne-true : false ≡ true → ⊥
false-ne-true e = cc

-- An entry that is free is no inode.
pub is_inode-free :
    (dev nr : ℕ) (inode : MInode) → is_free inode.dev ≡ true → is_inode dev nr inode ≡ false
is_inode-free dev nr inode e = elim (Option-cases inode.dev) [
  | inl gone ↦ rw gone refl
  | inr (d, is) ↦ absurd (false-ne-true (rw is at e))
]
