-- ===== src/CharQueue/Window.antt =====
-- What a ring holds, and what one push or pop of kernel/queue.c does to it.
use native.Mathlib.Nat.{mod-eq_of_lt, mod-eq-sub-mod}
use rdix.Common.{
  ℕ, suc, ◌+◌, ◌-◌, ◌%◌, ◌^◌, ◌≤◌, ◌<◌, ◌≡◌, ◌∙◌, refl, ap, inl, inr, false, List, [], ◌∷◌, ◌++◌,
  arith, ok, ltb, ◌==◌, if◌then◌else◌, ltb→lt, ltb→le, Bool-cases, length, get_or, set, length-set,
  get_or-set_self, get_or-set_ne, tabulate, tabulate_ext, tabulate-suc, length-tabulate, u32,
}
use rdix.CharQueue.{CharQueue, new_char_que, que_isempty, que_isfull, que_push, que_pop, remainder}

pub record IsValid (q : CharQueue) : Type 0 where
  pub room : 1 < q.size
  pub small : q.size < 2 ^ 32
  pub storage : q.size ≤ length q.que
  pub head_in : q.head < q.size
  pub tail_in : q.tail < q.size

-- where `%` leads from an index below twice the size
pub wrap : (a n : ℕ) → a < n + n → a % n ≡ (if ltb a n then a else a - n)
wrap a n h = elim (Bool-cases (ltb a n)) [
  | inl e ↦ rw e (mod-eq_of_lt (ltb→lt _ _ e))
  | inr e ↦ let ge = ltb→le a n e in rw e (mod-eq-sub-mod ge ∙ mod-eq_of_lt (omega arith))
]

-- the number of characters waiting
abbrev pub count : CharQueue → ℕ
count q = if ltb q.head q.tail then q.tail - q.head - 1 else q.tail + q.size - q.head - 1

-- the character that stands `k` places behind the oldest
abbrev pub nth : CharQueue → ℕ → ℕ
nth q k = get_or q.que ((q.head + 1 + k) % q.size) 0

-- the characters waiting, oldest first
abbrev pub contents : CharQueue → List ℕ
contents q = tabulate (count q) (nth q)

pub remainder-ok : {q : CharQueue} (a : ℕ) → IsValid q → remainder a q.size ≡ ok (a % q.size)
unfolding remainder
remainder-ok a v = ground arith

-- A fresh queue of at least two places is valid and empty.
pub new_char_que-IsValid :
    (size : ℕ) (memory : List ℕ)
    → 1 < size
    → size < 2 ^ 32
    → size ≤ length memory
    → IsValid (new_char_que size memory) × (contents (new_char_que size memory) ≡ [])
unfolding new_char_que
new_char_que-IsValid size memory h k s = (omega arith, refl)

module _ {q : CharQueue} (v : IsValid q) where
  -- The two tests tell an empty and a full queue: full is `size - 1` characters.
  pub que_tests_lem :
      (que_isempty q ≡ ok (length (contents q) == 0))
      × (que_isfull q ≡ (length (contents q) == q.size - 1))
  unfolding que_isempty que_isfull
  que_tests_lem =
      rw (length-tabulate, remainder-ok {q = q} _ v) (ground (arith, wrap (q.head + 1) q.size))

  module _ (x : ℕ) (space : que_isfull q ≡ false) where
    abbrev pub pushed : CharQueue
    pushed = record q { que = set q.que q.tail x; tail = (q.tail + 1) % q.size }

    pub que_push-ok : que_push q x ≡ ok pushed
    unfolding que_push
    que_push-ok =
        let fits : u32 (q.tail + 1) ≡ q.tail + 1 = omega (arith, v.tail_in, v.small) in
        rw (space, fits, remainder-ok {q = q} _ v)

    pub pushed-IsValid : IsValid pushed
    unfolding que_isfull
    pushed-IsValid = ground (arith, length-set q.que q.tail x, wrap (q.tail + 1) q.size)

    pub count-pushed : count pushed ≡ suc (count q)
    unfolding que_isfull
    count-pushed = ground (arith, wrap (q.tail + 1) q.size)

    nth-pushed : (k : ℕ) → k < count q → nth pushed k ≡ nth q k
    unfolding que_isfull
    nth-pushed k h =
        get_or-set_ne q.que q.tail ((q.head + 1 + k) % q.size) x 0
          (ground (arith, wrap (q.head + 1 + k) q.size))

    nth-pushed_last : nth pushed (count q) ≡ x
    unfolding que_isfull
    nth-pushed_last =
        let at : (q.head + 1 + count q) % q.size ≡ q.tail =
          ground (arith, wrap (q.head + 1 + count q) q.size) in
        rw at (get_or-set_self q.que q.tail x 0 (omega arith))

    pub contents-pushed : contents pushed ≡ contents q ++ (x ∷ [])
    contents-pushed =
        ap (λ n. tabulate n (nth pushed)) count-pushed
        ∙ tabulate-suc (count q) (nth pushed)
        ∙ ap (λ l. l ++ (nth pushed (count q) ∷ []))
            (tabulate_ext (count q) (nth pushed) (nth q) nth-pushed)
        ∙ ap (λ y. contents q ++ (y ∷ [])) nth-pushed_last

  module _ (waiting : 0 < count q) where
    abbrev pub popped : CharQueue
    popped = record q { head = (q.head + 1) % q.size }

    pub que_pop-ok : que_pop q ≡ ok (nth q 0, popped)
    unfolding que_pop
    que_pop-ok =
        let fits : u32 (q.head + 1) ≡ q.head + 1 = omega (arith, v.head_in, v.small) in
        let first : q.head + 1 + 0 ≡ q.head + 1 = omega arith in
        rw (fits, remainder-ok {q = q} _ v, first) (ground (arith, wrap (q.head + 1) q.size))

    pub popped-IsValid : IsValid popped
    popped-IsValid = ground (arith, wrap (q.head + 1) q.size)

    pub count-popped : count q ≡ suc (count popped)
    count-popped = ground (arith, wrap (q.head + 1) q.size)

    nth-popped : (k : ℕ) → k < count popped → nth q (suc k) ≡ nth popped k
    nth-popped k h =
        ap (λ i. get_or q.que i 0)
          (ground (
            arith,
            wrap (q.head + 1) q.size,
            wrap (q.head + 1 + suc k) q.size,
            wrap ((q.head + 1) % q.size + 1 + k) q.size,
          ))

    pub contents-popped : contents q ≡ nth q 0 ∷ contents popped
    contents-popped =
        ap (λ n. tabulate n (nth q)) count-popped
        ∙ ap (λ l. nth q 0 ∷ l)
            (tabulate_ext (count popped) (λ k. nth q (suc k)) (nth popped) nth-popped)
