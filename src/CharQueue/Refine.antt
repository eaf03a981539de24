-- ===== src/CharQueue/Refine.antt =====
-- The ring behaves as the bounded first-in-first-out queue of its contents.
use rdix.Common.{
  ℕ, ◌+◌, ◌-◌, ◌<◌, ◌≡◌, refl, ap, inl, inr, true, Option, none, some, List, [], ◌∷◌, arith,
  Outcome, ok, panic, out_of_fuel, ◌>>=◌, ◌==◌, ==→eq, ==→ne, Bool-cases, tabulate, length-tabulate,
  u32,
}
use rdix.CharQueue.{run, CharQueue, que_isfull, que_push, que_pop}
use rdix.CharQueue.Fifo
use rdix.CharQueue.Window.{
  IsValid, wrap, remainder-ok, count, nth, contents, pushed, que_push-ok, pushed-IsValid,
  contents-pushed, popped, que_pop-ok, popped-IsValid, contents-popped,
}

-- the abstract view of a result
abbrev pub view {ℓ} : {A : Type ℓ} → Outcome (A × CharQueue) → Outcome (A × List ℕ)
view r = r >>= λ o. ok (o.0, contents o.1)

que_push-panic : (q : CharQueue) (x : ℕ) → que_isfull q ≡ true → que_push q x ≡ panic
unfolding que_push
que_push-panic q x full = rw full

module _ {q : CharQueue} (v : IsValid q) where
  que_pop-panic : count q ≡ 0 → que_pop q ≡ panic
  unfolding que_pop
  que_pop-panic empty =
      let fits : u32 (q.head + 1) ≡ q.head + 1 = omega (arith, v.head_in, v.small) in
      rw (fits, remainder-ok {q = q} _ v) (ground (arith, wrap (q.head + 1) q.size))

  isfull-count : que_isfull q ≡ (count q == q.size - 1)
  unfolding que_isfull
  isfull-count = ground arith

  -- `que_push` is the bounded queue's `push`, the stop on a full queue included.
  pub que_push_refines :
      (x : ℕ) → (que_push q x >>= λ q'. ok (contents q')) ≡ Fifo.push (q.size - 1) (contents q) x
  unfolding Fifo.push
  que_push_refines x = elim (Bool-cases (que_isfull q)) [
    | inl full ↦ rw (length-tabulate, ← isfull-count, full, que_push-panic q x full)
    | inr space ↦
        rw (length-tabulate, ← isfull-count, space, que_push-ok v x space)
          (ap ok (contents-pushed v x space))
  ]

  contents-nil : count q ≡ 0 → contents q ≡ []
  contents-nil empty = ap (λ n. tabulate n (nth q)) empty

  -- `que_pop` is the bounded queue's `pop`, the stop on an empty queue included.
  pub que_pop_refines : view (que_pop q) ≡ Fifo.pop (contents q)
  unfolding Fifo.pop
  que_pop_refines = elim (Bool-cases (count q == 0)) [
    | inl empty ↦
        let none_left = ==→eq (count q) 0 empty in
        rw (que_pop-panic none_left, contents-nil none_left)
    | inr waiting ↦
        let some_left : 0 < count q = omega (arith, ==→ne (count q) 0 waiting) in
        rw (contents-popped v some_left, que_pop-ok v some_left)
  ]

  que_push-IsValid :
      (x : ℕ) {q' : CharQueue} → que_push q x ≡ ok q' → IsValid q' × (q'.size ≡ q.size)
  que_push-IsValid x {q'} e = elim (Bool-cases (que_isfull q)) [
    | inl full ↦ cc (que_push-panic q x full)
    | inr space ↦
        let same : pushed v x space ≡ q' = ground (arith, que_push-ok v x space) in
        rw (← same) (pushed-IsValid v x space, refl)
  ]

  que_pop-IsValid :
      {x : ℕ} {q' : CharQueue} → que_pop q ≡ ok (x, q') → IsValid q' × (q'.size ≡ q.size)
  que_pop-IsValid {x} {q'} e = elim (Bool-cases (count q == 0)) [
    | inl empty ↦ cc (que_pop-panic (==→eq (count q) 0 empty))
    | inr waiting ↦
        let some_left : 0 < count q = omega (arith, ==→ne (count q) 0 waiting) in
        let same : popped v some_left ≡ q' = ground (arith, que_pop-ok v some_left) in
        rw (← same) (popped-IsValid v some_left, refl)
  ]

-- The claim of `run_refines` for the calls that are left.
abbrev Refines : List (Option ℕ) → CharQueue → Type 0
Refines calls q = view (run q calls) ≡ Fifo.run (q.size - 1) (contents q) calls

module _ {q : CharQueue} (v : IsValid q) (calls : List (Option ℕ))
    (rest : (q' : CharQueue) → IsValid q' → Refines calls q') where
  run-push :
      (x : ℕ) (r : Outcome CharQueue)
      → que_push q x ≡ r
      → view (r >>= λ q'. run q' calls)
        ≡ ((r >>= λ q'. ok (contents q')) >>= λ xs. Fifo.run (q.size - 1) xs calls)
  run-push x (ok q') e = let (v', same) = que_push-IsValid v x e in rw (← same) (rest q' v')
  run-push x panic e = refl
  run-push x out_of_fuel e = refl

  run-pop :
      (r : Outcome (ℕ × CharQueue))
      → que_pop q ≡ r
      → view (r >>= λ o. run o.1 calls >>= λ o'. ok (o.0 ∷ o'.0, o'.1))
        ≡ (view r >>= λ o. Fifo.run (q.size - 1) o.1 calls >>= λ o'. ok (o.0 ∷ o'.0, o'.1))
  run-pop (ok (x, q')) e =
      let (v', same) = que_pop-IsValid v e in rw (← same, ← rest q' v') (view_bind (run q' calls))
    where
      view_bind :
          (m : Outcome (List ℕ × CharQueue))
          → view (m >>= λ o. ok (x ∷ o.0, o.1)) ≡ (view m >>= λ o. ok (x ∷ o.0, o.1))
      view_bind m = ground arith
  run-pop panic e = refl
  run-pop out_of_fuel e = refl

-- No sequence of pushes and pops tells a valid ring from the bounded queue of its contents, with
-- one place fewer than the ring has.
pub run_refines :
    (calls : List (Option ℕ)) {q : CharQueue}
    → IsValid q
    → view (run q calls) ≡ Fifo.run (q.size - 1) (contents q) calls
unfolding run Fifo.run
run_refines [] v = refl
run_refines (some x ∷ calls) {q} v =
    rw (← que_push_refines v x) (run-push v calls (λ q' v'. run_refines calls v') x _ refl)
run_refines (none ∷ calls) {q} v =
    rw (← que_pop_refines v) (run-pop v calls (λ q' v'. run_refines calls v') _ refl)
