-- ===== src/Buffers/Getblk.antt =====
-- What getblk gives out.
use mathlib.Core.Path.{subst}
use rdix.Common.{
  ℕ, zero, suc, ◌+◌, ◌<◌, ◌≡◌, ◌≢◌, ◌⊎◌, ◌∙◌, inl, inr, refl, sym, ap, true, false, Option, none,
  some, List, arith, Outcome, ok, ◌==◌, if◌then◌else◌, ==→eq, Bool-cases, Option-cases,
  none-ne-some, u8,
}
use rdix.Buffers.{
  Buffer, Cache, Got, got, waits, waits_unlock, at, put_buffer, fresh_buffer, is_block,
  find_from_hash_table, find_new, get_new_buffer, score, bwrite, use_again, getblk,
}
use rdix.Tasks.{count}
use rdix.Buffers.Choice.{Busy, Least, choose-Least}
use rdix.Buffers.Keys.{Hashed, Spare, at_self, at-ne, find-some, find-none, find-found}
use rdix.Buffers.Replace.{find_new-run, taken, taken_self, taken-other, taken-Hashed}
use rdix.Buffers.Blocks.{
  Hashed-same, put_buffer-SameKeys, bwrite-Hashed, Usable, choose-Usable, Hashed-Spare, grown,
  fresh-Spare,
}

-- The bytes of a block: those of its buffer, if they are valid, or those of the disk.
abbrev pub bytes_of : Option ℕ → ℕ → ℕ → Cache → List ℕ
bytes_of none dev blknr s = s.disk dev blknr
bytes_of (some id) dev blknr s =
    if (s.buffers id).b_vaild then (s.buffers id).b_data else s.disk dev blknr

abbrev pub content : ℕ → ℕ → Cache → List ℕ
content dev blknr s = bytes_of (find_from_hash_table dev blknr s) dev blknr s

-- The buffer is that of the block, and is found by it. It was there and has one user more, or it is
-- new or had none and has one now. Every other buffer in use is as it was, and each block still has
-- one buffer at most. The bytes of the block are as they were.
pub record Given (s s' : Cache) (dev blknr id : ℕ) : Type 0 where
  pub inside : id < s'.used
  pub same_dev : (s'.buffers id).b_dev ≡ dev
  pub same_block : (s'.buffers id).b_blknr ≡ blknr
  pub found : find_from_hash_table dev blknr s' ≡ some id
  pub hashed : Hashed s'
  pub bytes : bytes_of (some id) dev blknr s' ≡ content dev blknr s
  pub others :
      (a : ℕ) → a < s.used → 0 < (s.buffers a).b_count → a ≢ id → s'.buffers a ≡ s.buffers a
  pub counted :
      ((find_from_hash_table dev blknr s ≡ some id)
        × ((s'.buffers id).b_count ≡ u8 ((s.buffers id).b_count + 1)))
      ⊎ ((find_from_hash_table dev blknr s ≡ none)
          × ((s'.buffers id).b_count ≡ 1)
          × ((id ≡ s.used) ⊎ ((s.buffers id).b_count ≡ 0)))

-- A task waits where the block has no buffer and none more fits: with each buffer that is queued
-- busy, and nothing changed; or for a buffer that nobody uses and that is locked, with none queued
-- that is idle and has a lower score, and nothing changed but the mark that it is waited for.
abbrev pub Answer : Cache → ℕ → ℕ → Got → Cache → Type 0
Answer s dev blknr (got id) s' = Given s s' dev blknr id
Answer s dev blknr waits s' =
    (find_from_hash_table dev blknr s ≡ none)
    × (s.room ≡ 0)
    × ((a : ℕ) → 0 < count a s.free_list → Busy (s.buffers a))
    × (s' ≡ s)
Answer s dev blknr (waits_unlock id) s' =
    (find_from_hash_table dev blknr s ≡ none)
    × (s.room ≡ 0)
    × ((s.buffers id).locked ≡ true)
    × ((s.buffers id).b_count ≡ 0)
    × Least s.buffers (score (s.buffers id)) s.free_list
    × (s' ≡ put_buffer id (record (s.buffers id) { waiter = true }) s)
    × Hashed s'

abbrev pub Answers : Cache → ℕ → ℕ → Outcome (Got × Cache) → Type 0
Answers s dev blknr run = (g : Got) × (s' : Cache) × (run ≡ ok (g, s')) × Answer s dev blknr g s'

-- a block that is in the cache
hit :
    (s : Cache) (dev blknr id : ℕ)
    → Hashed s
    → find_from_hash_table dev blknr s ≡ some id
    → Given s
        (put_buffer id (record (s.buffers id) { b_count = u8 ((s.buffers id).b_count + 1) }) s)
        dev
        blknr
        id
hit s dev blknr id h e =
    let b : Buffer = record (s.buffers id) { b_count = u8 ((s.buffers id).b_count + 1) } in
    let s' = put_buffer id b s in
    let (inside, same_dev, same_block) = find-some s h dev blknr id e in
    let now : s'.buffers id ≡ b = at_self s.buffers id b in
    let h' : Hashed s' =
      Hashed-same s (at s.buffers id b) s.disk (put_buffer-SameKeys s id b refl refl refl) h in
    let dev' : (s'.buffers id).b_dev ≡ dev = ap (λ (b : Buffer). b.b_dev) now ∙ same_dev in
    let block' : (s'.buffers id).b_blknr ≡ blknr =
      ap (λ (b : Buffer). b.b_blknr) now ∙ same_block in
    record {
      inside = inside;
      same_dev = dev';
      same_block = block';
      found = find-found s' h' dev blknr id inside dev' block';
      hashed = h';
      bytes =
          ap (λ (b : Buffer). if b.b_vaild then b.b_data else s.disk dev blknr) now
          ∙ ap (λ o. bytes_of o dev blknr s) (sym e);
      others = λ a inside_a used other. at-ne s.buffers id a b other;
      counted = inl (e, ap (λ (b : Buffer). b.b_count) now);
    }

-- A block that is put into the buffer `id` of the cache `s1`.
miss :
    (s s1 : Cache) (dev blknr id : ℕ)
    → find_from_hash_table dev blknr s ≡ none
    → Spare s1 id dev blknr
    → ((a : ℕ) → a < s.used → a ≢ id → s1.buffers a ≡ s.buffers a)
    → s1.disk dev blknr ≡ s.disk dev blknr
    → (id ≡ s.used) ⊎ ((s.buffers id).b_count ≡ 0)
    → Given s (find_new id dev blknr s1) dev blknr id
miss s s1 dev blknr id missed sp same same_disk unused = rw (find_new-run s1 id dev blknr sp) (
    let now = taken_self s1 id dev blknr sp in
    let h' = taken-Hashed s1 id dev blknr sp in
    let dev' = ap (λ (b : Buffer). b.b_dev) now in
    let block' = ap (λ (b : Buffer). b.b_blknr) now in
    record {
      inside = sp.inside;
      same_dev = dev';
      same_block = block';
      found = find-found (taken s1 id dev blknr sp) h' dev blknr id sp.inside dev' block';
      hashed = h';
      bytes =
          ap (λ (b : Buffer). if b.b_vaild then b.b_data else s1.disk dev blknr) now
          ∙ same_disk
          ∙ ap (λ o. bytes_of o dev blknr s) (sym missed);
      others = λ a inside used other. taken-other s1 id dev blknr sp a other ∙ same a inside other;
      counted = inr (missed, ap (λ (b : Buffer). b.b_count) now, unused);
    })

bwrite-other : (id a : ℕ) (s : Cache) → a ≢ id → (bwrite id s).buffers a ≡ s.buffers a
unfolding bwrite
bwrite-other id a s other = elim (Bool-cases (s.buffers id).b_dirty) [
  | inl b ↦ rw b (at-ne s.buffers id a (record (s.buffers id) { b_dirty = false }) other)
  | inr b ↦ rw b refl
]

-- The write of one block leaves the others on the disk.
bwrite-disk :
    (id dev blknr : ℕ) (s : Cache)
    → is_block dev blknr (s.buffers id) ≡ false
    → (bwrite id s).disk dev blknr ≡ s.disk dev blknr
unfolding bwrite
bwrite-disk id dev blknr s other = elim (Bool-cases (s.buffers id).b_dirty) [
  | inr b ↦ rw b refl
  | inl b ↦ rw b (elim (Bool-cases (dev == (s.buffers id).b_dev)) [
    | inr b' ↦ rw b' refl
    | inl b' ↦
        let d = (s.buffers id).b_dev in
        let same : dev ≡ d = ==→eq dev d b' in
        let apart : blknr ≢ (s.buffers id).b_blknr = λ e. ground (arith, other, same, e) in
        rw b' (
          at-ne (s.disk d) (s.buffers id).b_blknr blknr (s.buffers id).b_data apart
          ∙ ap (λ k. s.disk k blknr) (sym same))
  ])
]

-- Which block a buffer is of does not change when it is written.
bwrite-keys :
    (id a : ℕ) (s : Cache)
    → (((bwrite id s).buffers a).b_dev ≡ (s.buffers a).b_dev)
      × (((bwrite id s).buffers a).b_blknr ≡ (s.buffers a).b_blknr)
unfolding bwrite
bwrite-keys id a s = elim (Bool-cases (s.buffers id).b_dirty) [
  | inl b ↦
      let (dev, block, node) =
        put_buffer-SameKeys s id (record (s.buffers id) { b_dirty = false }) refl refl refl a in
      rw b (dev, block)
  | inr b ↦ rw b (refl, refl)
]

bwrite-used : (id : ℕ) (s : Cache) → (bwrite id s).used ≡ s.used
unfolding bwrite
bwrite-used id s = elim (Bool-cases (s.buffers id).b_dirty) [
  | inl b ↦ rw b refl
  | inr b ↦ rw b refl
]

bwrite-missed :
    (id dev blknr : ℕ) (s : Cache)
    → Hashed s
    → find_from_hash_table dev blknr s ≡ none
    → find_from_hash_table dev blknr (bwrite id s) ≡ none
bwrite-missed id dev blknr s h missed =
    elim (Option-cases (find_from_hash_table dev blknr (bwrite id s))) [
      | inl n ↦ n
      | inr (a, n) ↦
          let (inside, same_dev, same_block) =
            find-some (bwrite id s) (bwrite-Hashed id s h) dev blknr a n in
          let (dev_a, block_a) = bwrite-keys id a s in
          absurd (
            none-ne-some (
              sym missed
              ∙ find-found s h dev blknr a (omega (arith, inside, bwrite-used id s))
                  (sym dev_a ∙ same_dev) (sym block_a ∙ same_block)))
    ]

use_again-Answers :
    (s : Cache) (dev blknr id : ℕ)
    → Hashed s
    → find_from_hash_table dev blknr s ≡ none
    → s.room ≡ 0
    → Usable s (some id)
    → Least s.buffers (score (s.buffers id)) s.free_list
    → Answers s dev blknr (use_again id dev blknr s)
unfolding use_again
use_again-Answers s dev blknr id h missed full (inside, (unused, alone)) least =
    elim (Bool-cases (s.buffers id).locked) [
      | inl b ↦
          let waiting : Buffer = record (s.buffers id) { waiter = true } in
          (
            waits_unlock id,
            put_buffer id waiting s,
            rw (b, alone) refl,
            (
              missed,
              full,
              b,
              unused,
              least,
              refl,
              Hashed-same s (at s.buffers id waiting) s.disk
                  (put_buffer-SameKeys s id waiting refl refl refl) h,
            ),
          )
      | inr b ↦
          let h1 = bwrite-Hashed id s h in
          let sp =
            Hashed-Spare (bwrite id s) id dev blknr h1 (bwrite-missed id dev blknr s h missed)
              (omega (arith, inside, bwrite-used id s)) in
          (
            got id,
            find_new id dev blknr (bwrite id s),
            rw b refl,
            miss s (bwrite id s) dev blknr id missed sp
                (λ a inside_a other. bwrite-other id a s other)
                (bwrite-disk id dev blknr s (find-none s h dev blknr missed id inside))
                (inr unused),
          )
    ]

no_room : (s : Cache) → s.room ≡ 0 → get_new_buffer s ≡ none
unfolding get_new_buffer
no_room s e = rw e refl

some_room : (s : Cache) (n : ℕ) → s.room ≡ suc n → get_new_buffer s ≡ some (s.used, grown s n)
unfolding get_new_buffer
some_room s n e = rw e refl

ℕ-cases : (n : ℕ) → (n ≡ 0) ⊎ ((m : ℕ) × (n ≡ suc m))
ℕ-cases zero = inl refl
ℕ-cases (suc m) = inr (m, refl)

-- On a cache where each block has one buffer at most getblk returns. It gives the buffer of the block,
-- which it then is found by, and leaves every other buffer in use as it was; or, where the block has
-- none and no new one fits, it waits: with nothing changed where each buffer that is queued has a user
-- or a waiter, and otherwise with the only change that it is marked as the waiter of a locked buffer
-- without users, of the least score among those. Each block still has one buffer at most.
pub getblk-Answers :
    (s : Cache) (dev blknr : ℕ) → Hashed s → Answers s dev blknr (getblk dev blknr s)
unfolding getblk
getblk-Answers s dev blknr h = elim (Option-cases (find_from_hash_table dev blknr s)) [
  | inr (id, n) ↦ (
    got id,
    put_buffer id (record (s.buffers id) { b_count = u8 ((s.buffers id).b_count + 1) }) s,
    rw (n, getblk) refl,
    hit s dev blknr id h n,
  )
  | inl missed ↦ elim (ℕ-cases s.room) [
    | inr (n, room) ↦ (
      got s.used,
      find_new s.used dev blknr (grown s n),
      rw (missed, some_room s n room, getblk) refl,
      miss s (grown s n) dev blknr s.used missed (fresh-Spare s n dev blknr h missed)
          (λ a inside other. at-ne s.buffers s.used a fresh_buffer other) refl (inl refl),
    )
    | inl full ↦
        let u = choose-Usable s none s.free_list h.queued tt in
        elim (choose-Least s.buffers s.free_list) [
          | inl (n, busy) ↦
              (waits, s, rw (missed, no_room s full, n, getblk) refl, (missed, full, busy, refl))
          | inr (id, n, least) ↦
              let (g, s', run, answer) =
                use_again-Answers s dev blknr id h missed full (subst (Usable s) n u) least in
              (g, s', rw (missed, no_room s full, n, getblk) run, answer)
        ]
  ]
]
