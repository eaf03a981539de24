-- ===== src/Fs/Live.antt =====
-- A table without an inode twice, and what a new user of an inode does to it.
use rdix.Common.{
  ℕ, ◌+◌, ◌^◌, ◌≤◌, ◌<◌, ◌≡◌, ◌∙◌, inl, inr, refl, sym, Bool, true, false, ◌&&◌, some, List, arith,
  ◌==◌, ==→eq, Bool-cases, Option-cases, some-inj, get_elem?, set, u32, get_elem?-set_self,
  get_elem?-set_ne,
}
use rdix.Fs.{MInode, Fs, is_free, is_inode, set_inode, loaded}
use rdix.Fs.Table.{mark, copies, users_in, users, total-set, is_inode-free, false-ne-true}

-- No inode stands in the table twice, and each that is there has a user.
pub record Sound (table : List MInode) : Type 0 where
  pub once : (d n : ℕ) → copies d n table ≤ 1
  pub used :
      (i : ℕ) (inode : MInode)
      → get_elem? table i ≡ some inode
      → is_free inode.dev ≡ false
      → 0 < inode.count

-- one user of the inode, and none of another
abbrev pub one_user : ℕ → ℕ → ℕ → ℕ → ℕ
one_user dev nr d n = mark (dev == d && nr == n)

-- Nothing but the table of inodes differs.
abbrev pub SameDisk : Fs → Fs → Type 0
SameDisk a b = (a.descs ≡ b.descs) × (a.bytes ≡ b.bytes) × (a.supers ≡ b.supers)

-- What `iget` leaves: the entry is the inode, which has one user more.
pub record Got (dev nr i : ℕ) (before after : Fs) : Type 0 where
  pub there :
      (inode : MInode) × (get_elem? after.inode_table i ≡ some inode)
      × (is_inode dev nr inode ≡ true)
  pub counted :
      (d n : ℕ) → users d n after.inode_table ≡ users d n before.inode_table + one_user dev nr d n
  pub sound : Sound after.inode_table
  pub same : SameDisk before after

both : (a b : Bool) → (a && b) ≡ true → (a ≡ true) × (b ≡ true)
both true b h = (refl, h)
both false b h = absurd (false-ne-true h)

pub is_inode-inv :
    (dev nr : ℕ) (inode : MInode)
    → is_inode dev nr inode ≡ true
    → (d n : ℕ) → is_inode d n inode ≡ (dev == d && nr == n)
is_inode-inv dev nr inode e d n = elim (Option-cases inode.dev) [
  | inl gone ↦ absurd (false-ne-true (rw gone at e))
  | inr (a, is) ↦
      let (same, number) = both (a == dev) (inode.nr == nr) (rw is at e) in
      rw (is, ==→eq a dev same, ==→eq inode.nr nr number) refl
]

pub is_inode-live :
    (dev nr : ℕ) (inode : MInode) → is_inode dev nr inode ≡ true → is_free inode.dev ≡ false
is_inode-live dev nr inode e = elim (Bool-cases (is_free inode.dev)) [
  | inl b ↦ absurd (false-ne-true (sym (is_inode-free dev nr inode b) ∙ e))
  | inr b ↦ b
]

pub set-Sound :
    (table : List MInode) (i : ℕ) (new old : MInode)
    → Sound table
    → get_elem? table i ≡ some old
    → (is_free new.dev ≡ false → 0 < new.count)
    → ((d n : ℕ) → copies d n table + mark (is_inode d n new) ≤ 1 + mark (is_inode d n old))
    → Sound (set table i new)
set-Sound table i new old sound found has few = record {
  once =
      λ d n. omega (arith, few d n, total-set (λ m. mark (is_inode d n m)) table i new old found);
  used = λ j inode at live. elim (Bool-cases (j == i)) [
    | inl b ↦
        let same : new ≡ inode =
          some-inj (sym (get_elem?-set_self table i new old found) ∙ rw (==→eq j i b) at at) in
        rw (← same) (has (rw (← same) at live))
    | inr b ↦
        sound.used j inode (sym (get_elem?-set_ne table i j new (λ e. ground (arith, e, b))) ∙ at)
          live
  ];
}

pub grab-Got :
    (dev nr i : ℕ) (inode : MInode) (fs : Fs)
    → Sound fs.inode_table
    → get_elem? fs.inode_table i ≡ some inode
    → is_inode dev nr inode ≡ true
    → inode.count + 1 < 2 ^ 32
    → Got dev nr i fs (set_inode i (record inode { count = u32 (inode.count + 1) }) fs)
grab-Got dev nr i inode fs sound found is small =
    let new : MInode = record inode { count = u32 (inode.count + 1) } in
    let up : u32 (inode.count + 1) ≡ inode.count + 1 = omega arith in
    record {
      there = (new, get_elem?-set_self fs.inode_table i new inode found, is);
      counted = λ d n.
          let key = is_inode-inv dev nr inode is d n in
          let sum = total-set (users_in d n) fs.inode_table i new inode found in
          elim (Bool-cases (dev == d && nr == n)) [
            | inl b ↦ let mine = key ∙ b in rw b (omega (arith, up, rw mine at sum))
            | inr b ↦ let other = key ∙ b in rw b (omega (arith, rw other at sum))
          ];
      sound =
          set-Sound fs.inode_table i new inode sound found (λ e. omega (arith, up))
            (λ d n. omega (arith, sound.once d n));
      same = (refl, refl, refl);
    }

pub load-Got :
    (dev nr i block : ℕ) (old : MInode) (fs : Fs)
    → Sound fs.inode_table
    → get_elem? fs.inode_table i ≡ some old
    → is_free old.dev ≡ true
    → copies dev nr fs.inode_table ≡ 0
    → Got dev nr i fs (set_inode i (loaded dev nr block) fs)
load-Got dev nr i block old fs sound found free absent =
    let new = loaded dev nr block in
    record {
      there = (new, get_elem?-set_self fs.inode_table i new old found, ground arith);
      counted = λ d n.
          let gone = is_inode-free d n old free in
          let sum = total-set (users_in d n) fs.inode_table i new old found in
          elim (Bool-cases (dev == d && nr == n)) [
            | inl b ↦ rw b (omega (arith, rw (gone, b) at sum))
            | inr b ↦ rw b (omega (arith, rw (gone, b) at sum))
          ];
      sound =
          set-Sound fs.inode_table i new old sound found (λ e. omega arith)
            (λ d n.
              let gone = is_inode-free d n old free in
              elim (Bool-cases (dev == d && nr == n)) [
                | inl b ↦
                    let (same, number) = both (dev == d) (nr == n) b in
                    let here : copies d n fs.inode_table ≡ 0 =
                      rw (← ==→eq dev d same, ← ==→eq nr n number) absent in
                    rw (gone, b) (omega (arith, here))
                | inr b ↦ rw (gone, b) (omega (arith, sound.once d n))
              ]);
      same = (refl, refl, refl);
    }
