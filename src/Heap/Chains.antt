-- ===== src/Heap/Chains.antt =====
-- A block that is taken from a chain of buckets, and given back to it.
use mathlib.Core.Path.{subst}
use rdix.Common.{
  ℕ, ◌+◌, ◌-◌, ◌%◌, ◌<◌, ◌≡◌, ◌≢◌, ◌∙◌, inl, inr, refl, sym, ap, Bool, true, false, none, some,
  List, [], ◌∷◌, arith, ◌==◌, if◌then◌else◌, ==→eq, ==→ne, Bool-cases, Option-cases, some-inj,
  none-ne-some, u16,
}
use rdix.Heap.{Bucket, Heap, take_block, give_block, give_in}

abbrev pub page_of : ℕ → ℕ
page_of obj = obj - obj % 4096

-- Whether a bucket of the chain has the page.
unfoldable pub has_page : ℕ → List Bucket → Bool
has_page page [] = false
has_page page (b ∷ bs) = let rest = has_page page bs in if b.page == page then true else rest

-- Each bucket has blocks in use, its free blocks are in its page, and no other has the page.
unfoldable pub Sound : List Bucket → Type 0
unfolding has_page
Sound [] = Unit {0}
Sound (b ∷ bs) =
    (b.freeptr ≢ 0 → b.page ≡ page_of b.freeptr)
    × (0 < b.refcnt)
    × (b.refcnt < 65535)
    × (has_page b.page bs ≡ false)
    × Sound bs

-- The same of all chains; a page is in one of them at most.
pub record IsSound (h : Heap) : Type 0 where
  pub each : (k : ℕ) → Sound (h.chains k)
  pub apart :
      (j k page : ℕ) → has_page page (h.chains j) ≡ true → has_page page (h.chains k) ≡ true → j ≡ k

pub take_block-page :
    (words : ℕ → ℕ) (bs bs1 : List Bucket) (block : ℕ)
    → Sound bs
    → take_block words bs ≡ some (block, bs1)
    → has_page (page_of block) bs ≡ true
unfolding take_block has_page Sound
take_block-page words [] bs1 block s e = cc
take_block-page words (b ∷ bs) bs1 block (in_page, some_used, few, alone, s) e =
    elim (Bool-cases (b.freeptr == 0)) [
      | inr f ↦
          let same : b.freeptr ≡ block =
            ap (λ (r : ℕ × List Bucket). r.0) (some-inj (rw (f, take_block) at e)) in
          let here : b.page ≡ page_of block = in_page (==→ne b.freeptr 0 f) ∙ ap page_of same in
          let hit : (b.page == page_of block) ≡ true = ground (arith, here) in rw hit refl
      | inl f ↦ elim (Option-cases (take_block words bs)) [
        | inl n ↦ absurd (none-ne-some (rw (f, n, take_block) at e))
        | inr ((block', bs'), n) ↦
            let same : block' ≡ block =
              ap (λ (r : ℕ × List Bucket). r.0) (some-inj (rw (f, n, take_block) at e)) in
            let there = take_block-page words bs bs' block' s n in
            let there' : has_page (page_of block) bs ≡ true =
              ap (λ p. has_page (page_of p) bs) (sym same) ∙ there in
            elim (Bool-cases (b.page == page_of block)) [
              | inl b' ↦ rw b' refl
              | inr b' ↦ rw b' there'
            ]
      ]
    ]

pub give_in-none :
    (obj page : ℕ) (bs : List Bucket) → has_page page bs ≡ false → give_in obj page bs ≡ none
unfolding has_page give_in
give_in-none obj page [] e = refl
give_in-none obj page (b ∷ bs) e = elim (Bool-cases (b.page == page)) [
  | inl b' ↦ let bad : true ≡ false = rw (b', has_page) at e in cc
  | inr b' ↦ rw (b', give_in-none obj page bs (rw (b', has_page) at e), give_in) refl
]

-- the bucket without its first free block
abbrev shorter : (ℕ → ℕ) → Bucket → Bucket
shorter words b = record b { freeptr = words b.freeptr; refcnt = u16 (b.refcnt + 1) }

give_in-here :
    (words : ℕ → ℕ) (b : Bucket) (bs : List Bucket)
    → b.page ≡ page_of b.freeptr
    → 0 < b.refcnt
    → b.refcnt < 65535
    → give_in b.freeptr (page_of b.freeptr) (shorter words b ∷ bs)
      ≡ some (words b.freeptr, (none, b ∷ bs))
unfolding give_in give_block
give_in-here words b bs in_page some_used few =
    let hit : (b.page == page_of b.freeptr) ≡ true = ground (arith, in_page) in
    let back : u16 (u16 (b.refcnt + 1) + 65535) ≡ b.refcnt = omega arith in
    let left : (u16 (u16 (b.refcnt + 1) + 65535) == 0) ≡ false = ground (arith, back, some_used) in
    rw (hit, left) (ap (λ r. some (words b.freeptr, (none, record b { refcnt = r } ∷ bs))) back)

give_in-behind :
    (obj page old : ℕ) (b : Bucket) (bs bs' : List Bucket)
    → (b.page == page) ≡ false
    → give_in obj page bs ≡ some (old, (none, bs'))
    → give_in obj page (b ∷ bs) ≡ some (old, (none, b ∷ bs'))
unfolding give_in
give_in-behind obj page old b bs bs' other e = rw (other, e, give_in) refl

take_block-nil : (words : ℕ → ℕ) → take_block words [] ≡ none
unfolding take_block
take_block-nil words = refl

take_block-here :
    (words : ℕ → ℕ) (b : Bucket) (bs : List Bucket)
    → (b.freeptr == 0) ≡ false
    → take_block words (b ∷ bs) ≡ some (b.freeptr, shorter words b ∷ bs)
unfolding take_block
take_block-here words b bs f = rw f refl

take_block-behind :
    (words : ℕ → ℕ) (b : Bucket) (bs bs' : List Bucket) (block : ℕ)
    → (b.freeptr == 0) ≡ true
    → take_block words bs ≡ some (block, bs')
    → take_block words (b ∷ bs) ≡ some (block, b ∷ bs')
unfolding take_block
take_block-behind words b bs bs' block f e = rw (f, e, take_block) refl

take_block-full :
    (words : ℕ → ℕ) (b : Bucket) (bs : List Bucket)
    → (b.freeptr == 0) ≡ true
    → take_block words bs ≡ none
    → take_block words (b ∷ bs) ≡ none
unfolding take_block
take_block-full words b bs f e = rw (f, e, take_block) refl

-- A block that was taken from a chain goes back to where it was.
pub give_in-take_block :
    (words : ℕ → ℕ) (bs : List Bucket) (r : ℕ × List Bucket)
    → Sound bs
    → take_block words bs ≡ some r
    → give_in r.0 (page_of r.0) r.1 ≡ some (words r.0, (none, bs))
unfolding Sound
give_in-take_block words [] r s e = absurd (none-ne-some (sym (take_block-nil words) ∙ e))
give_in-take_block words (b ∷ bs) r (in_page, some_used, few, alone, s) e =
    elim (Bool-cases (b.freeptr == 0)) [
      | inr f ↦
          subst
            (λ (r : ℕ × List Bucket).
              give_in r.0 (page_of r.0) r.1 ≡ some (words r.0, (none, b ∷ bs)))
            (some-inj (sym (take_block-here words b bs f) ∙ e))
            (give_in-here words b bs (in_page (==→ne b.freeptr 0 f)) some_used few)
      | inl f ↦ elim (Option-cases (take_block words bs)) [
        | inl n ↦ absurd (none-ne-some (sym (take_block-full words b bs f n) ∙ e))
        | inr (r', n) ↦
            let there = take_block-page words bs r'.1 r'.0 s n in
            let other : (b.page == page_of r'.0) ≡ false =
              elim (Bool-cases (b.page == page_of r'.0)) [
                | inr b' ↦ b'
                | inl b' ↦
                    let bad : true ≡ false =
                      sym there
                      ∙ ap (λ p. has_page p bs) (sym (==→eq b.page (page_of r'.0) b'))
                      ∙ alone in
                    cc
              ] in
            subst
              (λ (r : ℕ × List Bucket).
                give_in r.0 (page_of r.0) r.1 ≡ some (words r.0, (none, b ∷ bs)))
              (some-inj (sym (take_block-behind words b bs r'.1 r'.0 f n) ∙ e))
              (give_in-behind r'.0 (page_of r'.0) (words r'.0) b r'.1 bs other
                (give_in-take_block words bs r' s n))
      ]
    ]
