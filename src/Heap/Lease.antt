-- ===== src/Heap/Lease.antt =====
-- A block that is taken and given back.
use rdix.Common.{
  ℕ, ◌+◌, ◌≤◌, ◌≡◌, ◌≢◌, ◌∙◌, inl, inr, refl, sym, ap, true, false, none, some, List, [], ◌∷◌,
  arith, ok, ltb, leb, ◌==◌, ==→eq, Bool-cases, some-inj, none-ne-some,
}
use rdix.Heap.{
  Bucket, Heap, sizes, put, class_from, take_block, give_in, found_bdesc, free_from, malloc, free_s,
}
use rdix.Heap.Chains.{page_of, has_page, IsSound, take_block-page, give_in-none, give_in-take_block}

class_from-le : (n : ℕ) (l : List ℕ) (i k size : ℕ) → class_from n l i ≡ some (k, size) → i ≤ k
unfolding class_from
class_from-le n [] i k size e = absurd (none-ne-some e)
class_from-le n (s ∷ more) i k size e = elim (Bool-cases (leb n s)) [
  | inl b ↦
      let same : i ≡ k = ap (λ (r : ℕ × ℕ). r.0) (some-inj (rw (b, class_from) at e)) in
      omega (arith, same)
  | inr b ↦
      let rest = class_from-le n more (i + 1) k size (rw (b, class_from) at e) in
      omega (arith, rest)
]

-- free_s finds the chain that malloc chose, where no smaller one has the page.
free_from-found :
    (n : ℕ) (l : List ℕ) (i k size obj hint old : ℕ) (bs : List Bucket) (h : Heap)
    → class_from n l i ≡ some (k, size)
    → hint ≤ size
    → ((j : ℕ) → j ≢ k → give_in obj (page_of obj) (h.chains j) ≡ none)
    → give_in obj (page_of obj) (h.chains k) ≡ some (old, (none, bs))
    → free_from obj hint l i h ≡ found_bdesc obj k old none bs h
unfolding free_from class_from
free_from-found n [] i k size obj hint old bs h e fits others here = absurd (none-ne-some e)
free_from-found n (s ∷ more) i k size obj hint old bs h e fits others here =
    elim (Bool-cases (leb n s)) [
      | inl b ↦
          let same = some-inj (rw (b, class_from) at e) in
          let same_k : i ≡ k = ap (λ (r : ℕ × ℕ). r.0) same in
          let same_size : s ≡ size = ap (λ (r : ℕ × ℕ). r.1) same in
          let large : ltb s hint ≡ false = ground (arith, same_size, fits) in
          let there : give_in obj (page_of obj) (h.chains i) ≡ some (old, (none, bs)) =
            ap (λ k. give_in obj (page_of obj) (h.chains k)) same_k ∙ here in
          rw (large, there, free_from) (ap (λ k. found_bdesc obj k old none bs h) same_k)
      | inr b ↦
          let e' : class_from n more (i + 1) ≡ some (k, size) = rw (b, class_from) at e in
          let later = class_from-le n more (i + 1) k size e' in
          let rest = free_from-found n more (i + 1) k size obj hint old bs h e' fits others here in
          elim (Bool-cases (ltb s hint)) [
            | inl b' ↦ rw (b', free_from) rest
            | inr b' ↦ rw (b', others i (λ same. omega (arith, same, later)), free_from) rest
          ]
    ]

put_self {ℓ} : {A : Type ℓ} (f : ℕ → A) (i : ℕ) (v : A) → put f i v i ≡ v
put_self f i v = let e : (i == i) ≡ true = ground arith in rw e refl

put-ne {ℓ} : {A : Type ℓ} (f : ℕ → A) (i k : ℕ) (v : A) → k ≢ i → put f i v k ≡ f k
put-ne f i k v h = let e : (k == i) ≡ false = ground (arith, h) in rw e refl

-- a value written over another, at one place
put-put {ℓ} :
    {A : Type ℓ} (f : ℕ → A) (i : ℕ) (v w : A) → w ≡ f i → (k : ℕ) → put (put f i v) i w k ≡ f k
put-put f i v w same k = elim (Bool-cases (k == i)) [
  | inl b ↦ rw b (same ∙ ap f (sym (==→eq k i b)))
  | inr b ↦ rw b refl
]

-- The heap is as it was: every chain, every word, the pages and the descriptors.
pub record AsBefore (h h' : Heap) : Type 0 where
  pub chains : (k : ℕ) → h'.chains k ≡ h.chains k
  pub words : (a : ℕ) → h'.words a ≡ h.words a
  pub pages : h'.v_bit_map ≡ h.v_bit_map
  pub free_bucket_desc : h'.free_bucket_desc ≡ h.free_bucket_desc

-- On a sound heap with a free block of the size that fits a request, malloc returns the first one.
-- Whatever the caller then writes to its first word, free_s with that size or a smaller one as its
-- hint leaves the heap as it was.
pub free_s-malloc :
    (n k size hint text block : ℕ) (bs : List Bucket) (h : Heap)
    → IsSound h
    → class_from n sizes 0 ≡ some (k, size)
    → take_block h.words (h.chains k) ≡ some (block, bs)
    → hint ≤ size
    → (h1 : Heap) × (h2 : Heap) × (malloc n h ≡ ok (block, h1))
      × (free_s block hint (record h1 { words = put h1.words block text }) ≡ ok h2)
      × AsBefore h h2
unfolding malloc free_s found_bdesc
free_s-malloc n k size hint text block bs h s class some_free fits =
    let h1 : Heap = record h { chains = put h.chains k bs } in
    let written : Heap = record h1 { words = put h1.words block text } in
    let back = give_in-take_block h.words (h.chains k) (block, bs) (s.each k) some_free in
    let there = take_block-page h.words (h.chains k) bs block (s.each k) some_free in
    let others : (j : ℕ) → j ≢ k → give_in block (page_of block) (written.chains j) ≡ none =
      λ j other.
        ap (give_in block (page_of block)) (put-ne h.chains k j bs other)
        ∙ give_in-none block (page_of block) (h.chains j)
            (elim (Bool-cases (has_page (page_of block) (h.chains j))) [
              | inl b ↦ absurd (other (s.apart j k (page_of block) b there))
              | inr b ↦ b
            ]) in
    let here : give_in block (page_of block) (written.chains k)
        ≡ some (h.words block, (none, h.chains k)) =
      ap (give_in block (page_of block)) (put_self h.chains k bs) ∙ back in
    let freed =
      free_from-found n sizes 0 k size block hint (h.words block) (h.chains k) written class fits
        others here in
    (
      h1,
      record written {
        words = put written.words block (h.words block);
        chains = put written.chains k (h.chains k);
      },
      rw (class, some_free, malloc) refl,
      freed,
      record {
        chains = put-put h.chains k bs (h.chains k) refl;
        words = put-put h.words block text (h.words block) refl;
        pages = refl;
        free_bucket_desc = refl;
      },
    )
