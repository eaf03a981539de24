-- ===== src/CharQueue.antt =====
-- kernel/queue.c: the ring of characters between the keyboard interrupt and its readers. One slot
-- stays unused. `size_t` is u32; `%` by a size of 0 is a hardware exception.
pub mod Fifo
pub mod Window
pub mod Refine
mod Tests
use rdix.Common.{
  ℕ, ◌+◌, ◌%◌, Bool, List, [], ◌∷◌, Option, none, some, Outcome, ok, panic, ◌>>=◌, ◌>>◌, assert,
  not, ◌==◌, if◌then◌else◌, u32, get_or, set,
}

pub record CharQueue : Type 0 where
  pub head : ℕ
  pub tail : ℕ
  pub size : ℕ
  pub que : List ℕ

-- `memory` is what `malloc(size)` gives.
unfoldable pub new_char_que : ℕ → List ℕ → CharQueue
new_char_que size memory = record { head = 0; tail = 1; size = size; que = memory }

unfoldable pub remainder : ℕ → ℕ → Outcome ℕ
remainder a n = if n == 0 then panic else ok (a % n)

unfoldable pub que_isempty : CharQueue → Outcome Bool
unfolding remainder
que_isempty q = do first ← remainder (u32 (q.head + 1)) q.size; ok (first == q.tail)

unfoldable pub que_isfull : CharQueue → Bool
que_isfull q = q.head == q.tail

unfoldable pub que_push : CharQueue → ℕ → Outcome CharQueue
unfolding remainder que_isfull
que_push q value = do
  assert (not (que_isfull q))
  next ← remainder (u32 (q.tail + 1)) q.size
  ok (record q { que = set q.que q.tail value; tail = next })

unfoldable pub que_pop : CharQueue → Outcome (ℕ × CharQueue)
unfolding remainder que_isempty
que_pop q = do
  empty ← que_isempty q
  assert (not empty)
  first ← remainder (u32 (q.head + 1)) q.size
  ok (get_or q.que first 0, record q { head = first })

-- A client's calls in order, `some x` a push and `none` a pop: what it has popped, and the queue.
unfoldable pub run : CharQueue → List (Option ℕ) → Outcome (List ℕ × CharQueue)
run q [] = ok ([], q)
run q (some x ∷ cs) = que_push q x >>= λ q'. run q' cs
run q (none ∷ cs) = que_pop q >>= λ r. run r.1 cs >>= λ o. ok (r.0 ∷ o.0, o.1)
