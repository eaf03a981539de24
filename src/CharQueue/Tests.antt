-- ===== src/CharQueue/Tests.antt =====
-- Runs of kernel/queue.c, and its theorems at a ring of three places.
use rdix.Common.{ℕ, ◌≡◌, refl, true, List, [], ◌∷◌, Option, none, some, ok, panic, arith}
use rdix.CharQueue.{CharQueue, new_char_que, que_isfull, que_push, que_pop, run}
use rdix.CharQueue.Fifo
use rdix.CharQueue.Window.{IsValid, contents, new_char_que-IsValid}
use rdix.CharQueue.Refine.{view, run_refines}

-- 8, then 9, round the end of the memory
abbrev wrapped : CharQueue
wrapped = record { head = 1; tail = 1; size = 3; que = 9 ∷ 7 ∷ 8 ∷ [] }

abbrev one_left : CharQueue
one_left = record { head = 1; tail = 0; size = 3; que = 9 ∷ 7 ∷ 8 ∷ [] }

one_left-IsValid : IsValid one_left
one_left-IsValid = omega arith

abbrev script : List (Option ℕ)
script = some 5 ∷ none ∷ none ∷ []

wrapped_is_full : que_isfull wrapped ≡ true
unfolding que_isfull
wrapped_is_full = refl

run-script :
    run one_left script
    ≡ ok (8 ∷ 5 ∷ [], record { head = 0; tail = 1; size = 3; que = 5 ∷ 7 ∷ 8 ∷ [] })
unfolding run que_push que_pop
run-script = refl

overflow : run one_left (some 1 ∷ some 2 ∷ []) ≡ panic
unfolding run que_push que_pop
overflow = refl

new_char_que-IsValid_example :
    IsValid (new_char_que 3 (4 ∷ 5 ∷ 6 ∷ [])) × (contents (new_char_que 3 (4 ∷ 5 ∷ 6 ∷ [])) ≡ [])
new_char_que-IsValid_example =
    new_char_que-IsValid 3 (4 ∷ 5 ∷ 6 ∷ []) (omega arith) (omega arith) (omega arith)

run_refines_example : view (run one_left script) ≡ Fifo.run 2 (8 ∷ []) script
run_refines_example = run_refines script one_left-IsValid
