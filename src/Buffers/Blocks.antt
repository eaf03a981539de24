-- ===== src/Buffers/Blocks.antt =====
-- Which buffers getblk may use: one that is idle, or a new one.
use mathlib.Core.Path.{subst}
use rdix.Common.{
  ℕ, ◌+◌, ◌<◌, ◌≡◌, ◌≢◌, ◌∙◌, inl, inr, refl, sym, ap, false, Option, none, some, List, [], ◌∷◌,
  arith, ltb, ◌==◌, ==→eq, ==→ne, Bool-cases,
}
use rdix.Tasks.{count}
use rdix.Tasks.Homes.{one}
use rdix.Buffers.{
  Buffer, Cache, at, put_buffer, fresh_buffer, is_block, find_from_hash_table, consider, choose,
  better, or_this, weigh, score, hash, bwrite,
}
use rdix.Buffers.Keys.{Hashed, Spare, Linked, home, at_self, at-ne, find-none}

-- What is kept of each buffer where only counts, marks and bytes change.
abbrev pub SameKeys : (ℕ → Buffer) → (ℕ → Buffer) → Type 0
SameKeys bs bs' =
    (a : ℕ)
    → ((bs' a).b_dev ≡ (bs a).b_dev)
      × ((bs' a).b_blknr ≡ (bs a).b_blknr)
      × ((bs' a).b_hnode ≡ (bs a).b_hnode)

pub Hashed-same :
    (s : Cache) (bs : ℕ → Buffer) (disk : ℕ → ℕ → List ℕ)
    → SameKeys s.buffers bs
    → Hashed s
    → Hashed (record s { buffers = bs; disk = disk })
Hashed-same s bs disk same h = record {
  below = h.below;
  queued = h.queued;
  placed = λ a inside.
      let (dev, block, node) = same a in
      let (was, places) = h.placed a inside in
      let at_home : home (record s { buffers = bs; disk = disk }) a ≡ home s a =
        rw (dev, block) refl in
      (node ∙ was ∙ ap some (sym at_home), λ i. places i ∙ ap (λ j. one j i) (sym at_home));
  one_key = λ a b inside_a inside_b (dev, block).
      let (dev_a, block_a, _) = same a in
      let (dev_b, block_b, _) = same b in
      h.one_key a b inside_a inside_b (sym dev_a ∙ dev ∙ dev_b, sym block_a ∙ block ∙ block_b);
}

pub put_buffer-SameKeys :
    (s : Cache) (id : ℕ) (b : Buffer)
    → (b.b_dev ≡ (s.buffers id).b_dev)
    → (b.b_blknr ≡ (s.buffers id).b_blknr)
    → (b.b_hnode ≡ (s.buffers id).b_hnode)
    → SameKeys s.buffers (at s.buffers id b)
put_buffer-SameKeys s id b dev block node a = elim (Bool-cases (a == id)) [
  | inl e ↦
      let here : a ≡ id = ==→eq a id e in
      subst
        (λ a.
          ((at s.buffers id b a).b_dev ≡ (s.buffers a).b_dev)
          × ((at s.buffers id b a).b_blknr ≡ (s.buffers a).b_blknr)
          × ((at s.buffers id b a).b_hnode ≡ (s.buffers a).b_hnode))
        (sym here)
        (let now = at_self s.buffers id b in
          (
            ap (λ (b : Buffer). b.b_dev) now ∙ dev,
            ap (λ (b : Buffer). b.b_blknr) now ∙ block,
            ap (λ (b : Buffer). b.b_hnode) now ∙ node,
          ))
  | inr e ↦ rw e (refl, refl, refl)
]

pub bwrite-Hashed : (id : ℕ) (s : Cache) → Hashed s → Hashed (bwrite id s)
unfolding bwrite
bwrite-Hashed id s h = elim (Bool-cases (s.buffers id).b_dirty) [
  | inl b ↦ rw b (
      Hashed-same s _ _
        (put_buffer-SameKeys s id (record (s.buffers id) { b_dirty = false }) refl refl refl) h)
  | inr b ↦ rw b h
]

-- What a buffer needs to be used again.
abbrev pub Idle : Buffer → Type 0
Idle b = (b.b_count ≡ 0) × (b.waiter ≡ false)

abbrev pub Usable : Cache → Option ℕ → Type 0
Usable s none = Unit {0}
Usable s (some id) = (id < s.used) × Idle (s.buffers id)

better-Usable :
    (s : Cache) (id bf : ℕ)
    → Usable s (some id)
    → Usable s (some bf)
    → Usable s (some (better s.buffers id bf))
better-Usable s id bf u v = elim (Bool-cases (ltb (score (s.buffers id)) (score (s.buffers bf)))) [
  | inl b ↦ rw b u
  | inr b ↦ rw b v
]

weigh-Usable :
    (s : Cache) (bf id : ℕ)
    → Usable s (some bf)
    → Usable s (some id)
    → Usable s (weigh s.buffers bf id).1
unfolding weigh
weigh-Usable s bf id u v = elim (Bool-cases (score (s.buffers bf) == 0)) [
  | inl b ↦ rw b u
  | inr b ↦ rw b (better-Usable s id bf v u)
]

or_this-Usable :
    (s : Cache) (best : Option ℕ) (id : ℕ)
    → Usable s best
    → Usable s (some id)
    → Usable s (some (or_this best id))
or_this-Usable s none id u v = v
or_this-Usable s (some bf) id u v = u

consider-Usable :
    (s : Cache) (best : Option ℕ) (id : ℕ)
    → id < s.used
    → Usable s best
    → Usable s (consider s.buffers best id).1
unfolding consider
consider-Usable s best id inside u = elim (Bool-cases ((s.buffers id).b_count == 0)) [
  | inr b ↦ rw b u
  | inl b ↦ elim (Bool-cases (s.buffers id).waiter) [
    | inl b' ↦ rw (b, b') u
    | inr b' ↦
        let idle : Usable s (some id) = (inside, (==→eq (s.buffers id).b_count 0 b, b')) in
        rw (b, b') (weigh-Usable s (or_this best id) id (or_this-Usable s best id u idle) idle)
  ]
]

pub choose-Usable :
    (s : Cache) (best : Option ℕ) (ids : List ℕ)
    → ((a : ℕ) → 0 < count a ids → a < s.used)
    → Usable s best
    → Usable s (choose s.buffers best ids)
unfolding choose
choose-Usable s best [] inside u = u
choose-Usable s best (id ∷ ids) inside u =
    let u' = consider-Usable s best id (inside id (ground arith)) u in
    let rest =
      choose-Usable s (consider s.buffers best id).1 ids (λ a h. inside a (omega (arith, h))) u' in
    elim (Bool-cases (consider s.buffers best id).0) [ inl b ↦ rw b u' | inr b ↦ rw b rest ]

-- A buffer that nobody uses may be used again.
pub Hashed-Spare :
    (s : Cache) (id dev blknr : ℕ)
    → Hashed s
    → find_from_hash_table dev blknr s ≡ none
    → id < s.used
    → Spare s id dev blknr
Hashed-Spare s id dev blknr h missed inside =
    let (node, places) = h.placed id inside in
    record {
      inside = inside;
      below = h.below;
      queued = h.queued;
      placed = λ a inside_a other. h.placed a inside_a;
      one_key = λ a b inside_a inside_b other_a other_b. h.one_key a b inside_a inside_b;
      this = subst (λ o. Linked id o s.hash_table) (sym node) places;
      new = λ a inside_a other. find-none s h dev blknr missed a inside_a;
    }

-- the cache with one buffer more
abbrev pub grown : Cache → ℕ → Cache
grown s n = record (put_buffer s.used fresh_buffer s) { used = s.used + 1; room = n }

pub fresh-Spare :
    (s : Cache) (n dev blknr : ℕ)
    → Hashed s
    → find_from_hash_table dev blknr s ≡ none
    → Spare (grown s n) s.used dev blknr
fresh-Spare s n dev blknr h missed =
    let same : (a : ℕ) → a ≢ s.used → (grown s n).buffers a ≡ s.buffers a =
      λ a other. at-ne s.buffers s.used a fresh_buffer other in
    let was : (a : ℕ) → a < s.used + 1 → a ≢ s.used → a < s.used =
      λ a below other. omega (arith, below, other) in
    record {
      inside = omega arith;
      below = λ a i there. omega (arith, h.below a i there);
      queued = λ a there. omega (arith, h.queued a there);
      placed = λ a inside other.
          let (node, places) = h.placed a (was a inside other) in
          let at_home : home (grown s n) a ≡ home s a =
            ap (λ (b : Buffer). hash b.b_dev b.b_blknr) (same a other) in
          (
            ap (λ (b : Buffer). b.b_hnode) (same a other) ∙ node ∙ ap some (sym at_home),
            λ i. places i ∙ ap (λ j. one j i) (sym at_home),
          );
      one_key = λ a b inside_a inside_b other_a other_b (dev, block).
          h.one_key a b (was a inside_a other_a) (was b inside_b other_b) (
            ap (λ (b : Buffer). b.b_dev) (sym (same a other_a))
                ∙ dev
                ∙ ap (λ (b : Buffer). b.b_dev) (same b other_b),
            ap (λ (b : Buffer). b.b_blknr) (sym (same a other_a))
                ∙ block
                ∙ ap (λ (b : Buffer). b.b_blknr) (same b other_b),
          );
      this =
          subst (λ (b : Buffer). Linked s.used b.b_hnode s.hash_table)
            (sym (at_self s.buffers s.used fresh_buffer))
            (λ i. elim (Bool-cases (count s.used (s.hash_table i) == 0)) [
              | inl b ↦ ==→eq (count s.used (s.hash_table i)) 0 b
              | inr b ↦ absurd (
                  omega (
                    arith,
                    h.below s.used i (omega (arith, ==→ne (count s.used (s.hash_table i)) 0 b)),
                  ))
            ]);
      new = λ a inside other.
          ap (is_block dev blknr) (same a other)
          ∙ find-none s h dev blknr missed a (was a inside other);
    }
