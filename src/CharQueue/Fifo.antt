-- ===== src/CharQueue/Fifo.antt =====
-- The queue that the ring stands for: a list, oldest first, of at most `cap` characters. A push
-- to a full one and a pop of an empty one stop the kernel.
use rdix.Common.{
  ℕ, List, [], ◌∷◌, ◌++◌, Outcome, ok, panic, ◌>>=◌, ◌==◌, if◌then◌else◌, length, Option, none,
  some,
}

unfoldable pub push : ℕ → List ℕ → ℕ → Outcome (List ℕ)
push cap xs x = if length xs == cap then panic else ok (xs ++ (x ∷ []))

unfoldable pub pop : List ℕ → Outcome (ℕ × List ℕ)
pop [] = panic
pop (x ∷ xs) = ok (x, xs)

-- a call of a client: `some x` pushes `x`, `none` pops
abbrev pub Call : Type 0
Call = Option ℕ

-- what a run of calls has popped, and the state that it leaves
unfoldable pub run : ℕ → List ℕ → List Call → Outcome (List ℕ × List ℕ)
run cap xs [] = ok ([], xs)
run cap xs (some x ∷ cs) = push cap xs x >>= λ xs'. run cap xs' cs
run cap xs (none ∷ cs) = pop xs >>= λ r. run cap r.1 cs >>= λ o. ok (r.0 ∷ o.0, o.1)
