-- ===== src/Buffers/Replace.antt =====
-- A buffer that is used for another block.
use mathlib.Core.Path.{subst}
use rdix.Common.{
  ℕ, ◌+◌, ◌<◌, ◌≡◌, ◌≢◌, ◌∙◌, inl, inr, refl, sym, ap, true, false, some, List, [], ◌∷◌, ◌++◌,
  arith, ◌==◌, if◌then◌else◌, ==→eq, ==→ne, Bool-cases,
}
use rdix.Tasks.{count, remove}
use rdix.Tasks.Homes.{one, one_self}
use rdix.Tasks.Turns.{count-append}
use rdix.Buffers.{Buffer, Cache, hash, at, buffer_remove, buffer_insert, unlink, find_new}
use rdix.Buffers.Keys.{
  at_self, at-ne, home, In, SameBlock, Hashed, Spare, remove-le, unlink_self, unlink-other,
}

module _ (s : Cache) (id dev blknr : ℕ) (sp : Spare s id dev blknr) where
  abbrev pub renamed : Buffer
  renamed = record (s.buffers id) {
    b_count = 1;
    b_dirty = false;
    b_vaild = false;
    b_blknr = blknr;
    b_dev = dev;
  }

  abbrev pub table : ℕ → List ℕ
  table = unlink id (s.buffers id).b_hnode s.hash_table

  -- The cache behind `_find_new`.
  abbrev pub taken : Cache
  taken = record s {
    buffers = at (at s.buffers id renamed) id (record renamed { b_hnode = some (hash dev blknr) });
    free_list = remove id s.free_list ++ (id ∷ []);
    hash_table = at table (hash dev blknr) (id ∷ table (hash dev blknr));
  }

  pub find_new-run : find_new id dev blknr s ≡ taken
  unfolding find_new buffer_remove buffer_insert
  find_new-run = let e : (id == id) ≡ true = ground arith in rw e refl

  pub taken_self : taken.buffers id ≡ record renamed { b_hnode = some (hash dev blknr) }
  taken_self =
      at_self (at s.buffers id renamed) id (record renamed { b_hnode = some (hash dev blknr) })

  pub taken-other : (a : ℕ) → a ≢ id → taken.buffers a ≡ s.buffers a
  taken-other a other =
      at-ne (at s.buffers id renamed) id a (record renamed { b_hnode = some (hash dev blknr) })
        other
      ∙ at-ne s.buffers id a renamed other

  taken-count :
      (a i : ℕ)
      → count a (taken.hash_table i)
        ≡ (if i == hash dev blknr then one id a else 0) + count a (table i)
  taken-count a i = elim (Bool-cases (i == hash dev blknr)) [
    | inl b ↦ rw b (ap (λ j. one id a + count a (table j)) (sym (==→eq i (hash dev blknr) b)))
    | inr b ↦ rw b (omega arith)
  ]

  table-other : (a i : ℕ) → a ≢ id → count a (table i) ≡ count a (s.hash_table i)
  table-other a i = unlink-other a id (s.buffers id).b_hnode s.hash_table i sp.this

  table_self : (i : ℕ) → count id (table i) ≡ 0
  table_self i = unlink_self id (s.buffers id).b_hnode s.hash_table i sp.this

  taken-home : home taken id ≡ hash dev blknr
  taken-home = ap (λ (b : Buffer). hash b.b_dev b.b_blknr) taken_self

  taken-In : (a : ℕ) → a < s.used → In taken a (home taken a)
  taken-In a inside = elim (Bool-cases (a == id)) [
    | inl b ↦
        subst (λ a. In taken a (home taken a)) (sym (==→eq a id b))
          (
            ap (λ (b : Buffer). b.b_hnode) taken_self ∙ ap some (sym taken-home),
            λ i.
                taken-count id i
                ∙ (rw (table_self i, one_self id) (ground arith))
                ∙ ap (λ j. one j i) (sym taken-home),
          )
    | inr b ↦
        let other : a ≢ id = ==→ne a id b in
        let same = taken-other a other in
        let (node, places) = sp.placed a inside other in
        let at_home : home taken a ≡ home s a = ap (λ (b : Buffer). hash b.b_dev b.b_blknr) same in
        let not_it : one id a ≡ 0 = ground (arith, other) in
        (
          ap (λ (b : Buffer). b.b_hnode) same ∙ node ∙ ap some (sym at_home),
          λ i.
              taken-count a i
              ∙ (rw (not_it, table-other a i other) (ground arith))
              ∙ places i
              ∙ ap (λ j. one j i) (sym at_home),
        )
  ]

  taken-block : (a : ℕ) → a < s.used → a ≢ id → SameBlock taken a id → ⊥
  taken-block a inside other (same_dev, same_block) =
      let missed = sp.new a inside other in
      let dev_a : (s.buffers a).b_dev ≡ dev =
        ap (λ (b : Buffer). b.b_dev) (sym (taken-other a other))
        ∙ same_dev
        ∙ ap (λ (b : Buffer). b.b_dev) taken_self in
      let block_a : (s.buffers a).b_blknr ≡ blknr =
        ap (λ (b : Buffer). b.b_blknr) (sym (taken-other a other))
        ∙ same_block
        ∙ ap (λ (b : Buffer). b.b_blknr) taken_self in
      ground (arith, missed, dev_a, block_a)

  pub taken-Hashed : Hashed taken
  taken-Hashed = record {
    below = λ a i h. elim (Bool-cases (a == id)) [
      | inl b ↦ omega (arith, ==→eq a id b, sp.inside)
      | inr b ↦
          let other = ==→ne a id b in
          let not_it : one id a ≡ 0 = ground (arith, other) in
          sp.below a i (ground (arith, h, taken-count a i, not_it, table-other a i other))
    ];
    queued = λ a h. elim (Bool-cases (a == id)) [
      | inl b ↦ omega (arith, ==→eq a id b, sp.inside)
      | inr b ↦
          let not_it : one id a ≡ 0 = ground (arith, ==→ne a id b) in
          sp.queued a (
            omega (
              arith,
              h,
              count-append a (remove id s.free_list) (id ∷ []),
              remove-le a id s.free_list,
              not_it,
            ))
    ];
    placed = taken-In;
    one_key = λ a b inside_a inside_b same. elim (Bool-cases (a == id)) [
      | inl e ↦ elim (Bool-cases (b == id)) [
        | inl e' ↦ ==→eq a id e ∙ sym (==→eq b id e')
        | inr e' ↦ absurd (
            taken-block b inside_b (==→ne b id e')
              (subst (λ k. SameBlock taken b k) (==→eq a id e) (sym same.0, sym same.1)))
      ]
      | inr e ↦ elim (Bool-cases (b == id)) [
        | inl e' ↦ absurd (
            taken-block a inside_a (==→ne a id e)
              (subst (λ k. SameBlock taken a k) (==→eq b id e') same))
        | inr e' ↦
            let oa = taken-other a (==→ne a id e) in
            let ob = taken-other b (==→ne b id e') in
            sp.one_key a b inside_a inside_b (==→ne a id e) (==→ne b id e') (
              ap (λ (b : Buffer). b.b_dev) (sym oa) ∙ same.0 ∙ ap (λ (b : Buffer). b.b_dev) ob,
              ap (λ (b : Buffer). b.b_blknr) (sym oa) ∙ same.1 ∙ ap (λ (b : Buffer). b.b_blknr) ob,
            )
      ]
    ];
  }
