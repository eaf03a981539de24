-- ===== src/Buffers/Keys.antt =====
-- Each block has one buffer at most, and is found by it.
use mathlib.Core.Path.{ap₂}
use rdix.Common.{
  ℕ, ◌≤◌, ◌<◌, ◌≡◌, ◌≢◌, ◌∙◌, inl, inr, refl, sym, ap, true, false, Option, none, some, List, [],
  ◌∷◌, arith, ◌==◌, ==→eq, Bool-cases, Option-cases, some-inj, none-ne-some,
}
use rdix.Tasks.{count, remove}
use rdix.Tasks.Homes.{one, one_self, count-remove}
use rdix.Buffers.{Buffer, Cache, hash, at, is_block, find_in, find_from_hash_table, unlink}

pub at_self {ℓ} : {A : Type ℓ} (f : ℕ → A) (i : ℕ) (v : A) → at f i v i ≡ v
at_self f i v = let e : (i == i) ≡ true = ground arith in rw e refl

pub at-ne {ℓ} : {A : Type ℓ} (f : ℕ → A) (i k : ℕ) (v : A) → k ≢ i → at f i v k ≡ f k
at-ne f i k v h = let e : (k == i) ≡ false = ground (arith, h) in rw e refl

-- the hash list of the block of buffer `id`
abbrev pub home : Cache → ℕ → ℕ
home s id = hash (s.buffers id).b_dev (s.buffers id).b_blknr

-- The buffer stands once in list `j` of the hash table, and in no other.
abbrev pub In : Cache → ℕ → ℕ → Type 0
In s id j = ((s.buffers id).b_hnode ≡ some j) × ((i : ℕ) → count id (s.hash_table i) ≡ one j i)

abbrev pub SameBlock : Cache → ℕ → ℕ → Type 0
SameBlock s a b =
    ((s.buffers a).b_dev ≡ (s.buffers b).b_dev) × ((s.buffers a).b_blknr ≡ (s.buffers b).b_blknr)

-- Each buffer is in the hash list of its block, and no two have the same block.
pub record Hashed (s : Cache) : Type 0 where
  pub below : (a i : ℕ) → 0 < count a (s.hash_table i) → a < s.used
  pub queued : (a : ℕ) → 0 < count a s.free_list → a < s.used
  pub placed : (a : ℕ) → a < s.used → In s a (home s a)
  pub one_key : (a b : ℕ) → a < s.used → b < s.used → SameBlock s a b → a ≡ b

-- Where a node is, seen from its container.
abbrev pub Linked : ℕ → Option ℕ → (ℕ → List ℕ) → Type 0
Linked id none table = (i : ℕ) → count id (table i) ≡ 0
Linked id (some j) table = (i : ℕ) → count id (table i) ≡ one j i

-- The same of all buffers but `id`, which is in one list at most; no other has the block.
pub record Spare (s : Cache) (id dev blknr : ℕ) : Type 0 where
  pub inside : id < s.used
  pub below : (a i : ℕ) → 0 < count a (s.hash_table i) → a < s.used
  pub queued : (a : ℕ) → 0 < count a s.free_list → a < s.used
  pub placed : (a : ℕ) → a < s.used → a ≢ id → In s a (home s a)
  pub one_key : (a b : ℕ) → a < s.used → b < s.used → a ≢ id → b ≢ id → SameBlock s a b → a ≡ b
  pub this : Linked id (s.buffers id).b_hnode s.hash_table
  pub new : (a : ℕ) → a < s.used → a ≢ id → is_block dev blknr (s.buffers a) ≡ false

find_in-some :
    (buffers : ℕ → Buffer) (dev blknr : ℕ) (ids : List ℕ) (id : ℕ)
    → find_in buffers dev blknr ids ≡ some id
    → (0 < count id ids) × (is_block dev blknr (buffers id) ≡ true)
unfolding find_in
find_in-some buffers dev blknr [] id e = cc
find_in-some buffers dev blknr (a ∷ ids) id e = elim (Bool-cases (is_block dev blknr (buffers a))) [
  | inl b ↦ let same : a ≡ id = some-inj (rw (b, find_in) at e) in rw (sym same) (ground arith, b)
  | inr b ↦
      let (there, match) = find_in-some buffers dev blknr ids id (rw (b, find_in) at e) in
      (omega (arith, there), match)
]

find_in-none :
    (buffers : ℕ → Buffer) (dev blknr : ℕ) (ids : List ℕ)
    → find_in buffers dev blknr ids ≡ none
    → (id : ℕ) → 0 < count id ids
    → is_block dev blknr (buffers id) ≡ false
unfolding find_in
find_in-none buffers dev blknr [] e id h = absurd (omega (arith, h))
find_in-none buffers dev blknr (a ∷ ids) e id h =
    elim (Bool-cases (is_block dev blknr (buffers a))) [
      | inl b ↦ absurd (none-ne-some (sym (rw (b, find_in) at e)))
      | inr b ↦ elim (Bool-cases (a == id)) [
        | inl b' ↦ ap (λ (k : ℕ). is_block dev blknr (buffers k)) (sym (==→eq a id b')) ∙ b
        | inr b' ↦
            find_in-none buffers dev blknr ids (rw (b, find_in) at e) id (ground (arith, h, b'))
      ]
    ]

is_block-eq :
    (dev blknr : ℕ) (b : Buffer)
    → is_block dev blknr b ≡ true
    → (b.b_dev ≡ dev) × (b.b_blknr ≡ blknr)
is_block-eq dev blknr b e = (ground (arith, e), ground (arith, e))

module _ (s : Cache) (h : Hashed s) (dev blknr : ℕ) where
  pub find-some :
      (id : ℕ)
      → find_from_hash_table dev blknr s ≡ some id
      → (id < s.used) × ((s.buffers id).b_dev ≡ dev) × ((s.buffers id).b_blknr ≡ blknr)
  unfolding find_from_hash_table
  find-some id e =
      let (there, match) = find_in-some s.buffers dev blknr (s.hash_table (hash dev blknr)) id e in
      let (same_dev, same_block) = is_block-eq dev blknr (s.buffers id) match in
      (h.below id (hash dev blknr) there, same_dev, same_block)

  pub find-none :
      find_from_hash_table dev blknr s ≡ none
      → (a : ℕ) → a < s.used
      → is_block dev blknr (s.buffers a) ≡ false
  unfolding find_from_hash_table
  find-none e a inside = elim (Bool-cases (is_block dev blknr (s.buffers a))) [
    | inr b ↦ b
    | inl b ↦
        let (same_dev, same_block) = is_block-eq dev blknr (s.buffers a) b in
        let at_home : home s a ≡ hash dev blknr = ap₂ hash same_dev same_block in
        let (_, places) = h.placed a inside in
        let there : count a (s.hash_table (hash dev blknr)) ≡ 1 =
          places (hash dev blknr)
          ∙ ap (λ j. one j (hash dev blknr)) at_home
          ∙ one_self (hash dev blknr) in
        find_in-none s.buffers dev blknr (s.hash_table (hash dev blknr)) e a (omega (arith, there))
  ]

  -- The buffer of a block is found.
  pub find-found :
      (id : ℕ)
      → id < s.used
      → (s.buffers id).b_dev ≡ dev
      → (s.buffers id).b_blknr ≡ blknr
      → find_from_hash_table dev blknr s ≡ some id
  find-found id inside same_dev same_block =
      elim (Option-cases (find_from_hash_table dev blknr s)) [
        | inl n ↦
            let missed : is_block dev blknr (s.buffers id) ≡ false = find-none n id inside in
            absurd (ground (arith, missed, same_dev, same_block))
        | inr (a, n) ↦
            let (inside_a, dev_a, block_a) = find-some a n in
            n
            ∙ ap some
                (h.one_key a id inside_a inside (dev_a ∙ sym same_dev, block_a ∙ sym same_block))
      ]

pub remove-le : (a id : ℕ) (xs : List ℕ) → count a (remove id xs) ≤ count a xs
remove-le a id [] = omega arith
remove-le a id (x ∷ xs) = elim (Bool-cases (x == id)) [
  | inl b ↦ rw b (omega arith)
  | inr b ↦ rw b (omega (arith, remove-le a id xs))
]

pub unlink_self :
    (id : ℕ) (node : Option ℕ) (table : ℕ → List ℕ) (i : ℕ)
    → Linked id node table
    → count id (unlink id node table i) ≡ 0
unfolding unlink
unlink_self id none table i linked = linked i
unlink_self id (some j) table i linked = elim (Bool-cases (i == j)) [
  | inl b ↦
      let here : i ≡ j = ==→eq i j b in
      let there : count id (table j) ≡ 1 = linked j ∙ one_self j in
      let gone = count-remove id id (table j) (omega (arith, there)) in
      rw b (omega (arith, gone, there, one_self id))
  | inr b ↦ rw b (linked i ∙ (ground (arith, b)))
]

pub unlink-other :
    (a id : ℕ) (node : Option ℕ) (table : ℕ → List ℕ) (i : ℕ)
    → Linked id node table
    → a ≢ id
    → count a (unlink id node table i) ≡ count a (table i)
unfolding unlink
unlink-other a id none table i linked other = refl
unlink-other a id (some j) table i linked other = elim (Bool-cases (i == j)) [
  | inl b ↦
      let here : i ≡ j = ==→eq i j b in
      let there : count id (table j) ≡ 1 = linked j ∙ one_self j in
      let gone = count-remove a id (table j) (omega (arith, there)) in
      let none_of_it : one id a ≡ 0 = ground (arith, other) in
      rw b (omega (arith, gone, none_of_it, ap (λ k. count a (table k)) here))
  | inr b ↦ rw b refl
]
