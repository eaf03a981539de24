-- ===== src/Tasks/Homes.antt =====
-- In how many places a task is: the lists, and the processor.
use rdix.Common.{
  ok-inj, panic-ne-ok, some-inj, none-ne-some, inl, inr, ℕ, zero, suc, ◌+◌, ◌≤◌, ◌<◌, ◌≡◌, refl, ap,
  ◌&&◌, Option, none, some, List, [], ◌∷◌, arith, ok, assert-inv, ltb, ◌==◌, if◌then◌else◌, ==→eq,
  sym, Bool-cases, Option-cases, length, get_or, set,
}
use rdix.Tasks.{
  Kernel, nodes, set_nodes, count, remove, container_in, container, is_none, push_node, remove_from,
  remove_task, unsnoc, popback_node,
}

-- 1 for the pid itself, 0 for every other
abbrev pub one : ℕ → ℕ → ℕ
one q pid = if q == pid then 1 else 0

abbrev pub total : ℕ → List (List ℕ) → ℕ
total pid [] = 0
total pid (xs ∷ ls) = count pid xs + total pid ls

abbrev pub running_home : ℕ → Option ℕ → ℕ
running_home pid none = 0
running_home pid (some q) = one q pid

abbrev pub homes : ℕ → Kernel → ℕ
homes pid k = running_home pid k.running_task + total pid k.lists

pub one_self : (q : ℕ) → one q q ≡ 1
one_self q = ground arith

pub total-set :
    (pid i : ℕ) (xs : List ℕ) (ls : List (List ℕ))
    → i < length ls
    → total pid (set ls i xs) + count pid (get_or ls i []) ≡ total pid ls + count pid xs
total-set pid i xs [] h = absurd (omega arith)
total-set pid zero xs (ys ∷ ls) h = omega arith
total-set pid (suc i) xs (ys ∷ ls) h = omega (arith, total-set pid i xs ls (omega arith))

pub count-remove :
    (pid q : ℕ) (xs : List ℕ) → 0 < count q xs → count pid (remove q xs) + one q pid ≡ count pid xs
count-remove pid q [] h = absurd (omega arith)
count-remove pid q (x ∷ xs) h = elim (Bool-cases (x == q)) [
  | inl e ↦ ground (arith, ==→eq x q e)
  | inr e ↦ rw e (omega (arith, count-remove pid q xs (ground (arith, e, h))))
]

unsnoc-none : (xs : List ℕ) → unsnoc xs ≡ none → (pid : ℕ) → count pid xs ≡ 0
unfolding unsnoc
unsnoc-none [] e pid = refl
unsnoc-none (q ∷ qs) e pid = elim (Option-cases (unsnoc qs)) [
  | inl n ↦ absurd (none-ne-some (sym (rw n at e)))
  | inr (s, n) ↦ absurd (none-ne-some (sym (rw n at e)))
]

unsnoc-inside :
    (i : ℕ) (ls : List (List ℕ)) {r : List ℕ × ℕ} → unsnoc (get_or ls i []) ≡ some r → i < length ls
unfolding unsnoc
unsnoc-inside i [] e = absurd (none-ne-some e)
unsnoc-inside zero (xs ∷ ls) e = omega arith
unsnoc-inside (suc i) (xs ∷ ls) e = omega (arith, unsnoc-inside i ls e)

count-unsnoc :
    (pid : ℕ) (xs : List ℕ) (r : List ℕ × ℕ)
    → unsnoc xs ≡ some r
    → count pid xs ≡ count pid r.0 + one r.1 pid
unfolding unsnoc
count-unsnoc pid [] r e = cc
count-unsnoc pid (q ∷ qs) r e = elim (Option-cases (unsnoc qs)) [
  | inl n ↦
      let same : ([], q) ≡ r = some-inj (rw n at e) in
      omega (arith, ap (λ (r : List ℕ × ℕ). count pid r.0 + one r.1 pid) same, unsnoc-none qs n pid)
  | inr (s, n) ↦
      let same : (q ∷ s.0, s.1) ≡ r = some-inj (rw n at e) in
      omega
        (arith, ap (λ (r : List ℕ × ℕ). count pid r.0 + one r.1 pid) same, count-unsnoc pid qs s n)
]

container_in-some :
    (q : ℕ) (ls : List (List ℕ)) (i : ℕ)
    → container_in q ls ≡ some i
    → (i < length ls) × (0 < count q (get_or ls i []))
unfolding container_in
container_in-some q [] i e = cc
container_in-some q (xs ∷ ls) i e = elim (Bool-cases (ltb 0 (count q xs))) [
  | inl t ↦
      let same : 0 ≡ i = some-inj (rw (t, container_in) at e) in
      rw (sym same) (omega arith, ground (arith, t))
  | inr f ↦ elim (Option-cases (container_in q ls)) [
    | inl n ↦ absurd (none-ne-some (rw (f, n, container_in) at e))
    | inr (j, n) ↦
        let same : suc j ≡ i = some-inj (rw (f, n, container_in) at e) in
        let (inside, there) = container_in-some q ls j n in
        rw (sym same) (omega (arith, inside), there)
  ]
]

pub container_in-none : (q : ℕ) (ls : List (List ℕ)) → container_in q ls ≡ none → total q ls ≡ 0
unfolding container_in
container_in-none q [] e = refl
container_in-none q (xs ∷ ls) e = elim (Bool-cases (ltb 0 (count q xs))) [
  | inl t ↦ absurd (none-ne-some (sym (rw (t, container_in) at e)))
  | inr f ↦ elim (Option-cases (container_in q ls)) [
    | inl n ↦
        let zero_here : count q xs ≡ 0 = ground (arith, f) in
        omega (arith, container_in-none q ls n)
    | inr (j, n) ↦ absurd (none-ne-some (sym (rw (f, n, container_in) at e)))
  ]
]

pub push_node-homes :
    (i q : ℕ) (k k' : Kernel)
    → push_node i q k ≡ ok k'
    → (pid : ℕ) → homes pid k' ≡ homes pid k + one q pid
unfolding push_node
push_node-homes i q k k' e pid =
    let (allowed, kept) = assert-inv (ltb i (length k.lists) && is_none (container q k)) _ e in
    let same : set_nodes i (q ∷ nodes i k) k ≡ k' = cc in
    let inside : i < length k.lists = ground (arith, allowed) in
    omega (arith, ap (homes pid) same, total-set pid i (q ∷ nodes i k) k.lists inside)

pub remove_task-homes :
    (q : ℕ) (k k' : Kernel)
    → remove_task q k ≡ ok k'
    → (pid : ℕ) → homes pid k' + one q pid ≡ homes pid k
unfolding remove_from
remove_task-homes q k k' e pid = elim (Option-cases (container q k)) [
  | inl n ↦ absurd (panic-ne-ok (rw n at e))
  | inr (i, n) ↦
      let same : set_nodes i (remove q (nodes i k)) k ≡ k' = ok-inj (rw n at e) in
      let (inside, there) = container_in-some q k.lists i n in
      omega (
        arith,
        ap (homes pid) same,
        total-set pid i (remove q (nodes i k)) k.lists inside,
        count-remove pid q (nodes i k) there,
      )
]

pub popback_node-homes :
    (i : ℕ) (k : Kernel) (r : Kernel × ℕ)
    → popback_node i k ≡ some r
    → (pid : ℕ) → homes pid r.0 + one r.1 pid ≡ homes pid k
unfolding popback_node
popback_node-homes i k r e pid = elim (Option-cases (unsnoc (nodes i k))) [
  | inl n ↦ absurd (none-ne-some (rw (n, popback_node) at e))
  | inr (s, n) ↦
      let same : (set_nodes i s.0 k, s.1) ≡ r = some-inj (rw (n, popback_node) at e) in
      omega (
        arith,
        ap (λ (r : Kernel × ℕ). homes pid r.0 + one r.1 pid) same,
        total-set pid i s.0 k.lists (unsnoc-inside i k.lists n),
        count-unsnoc pid (nodes i k) s n,
      )
]

pub count-le-total : (pid i : ℕ) (ls : List (List ℕ)) → count pid (get_or ls i []) ≤ total pid ls
count-le-total pid i [] = omega arith
count-le-total pid zero (xs ∷ ls) = omega arith
count-le-total pid (suc i) (xs ∷ ls) = omega (arith, count-le-total pid i ls)

pub container_in-total :
    (q i : ℕ) (ls : List (List ℕ)) → container_in q ls ≡ some i → 0 < total q ls
container_in-total q i ls e =
    let (inside, there) = container_in-some q ls i e in
    let within = count-le-total q i ls in omega arith

pub push_node-running :
    (i q : ℕ) (k k' : Kernel) → push_node i q k ≡ ok k' → k'.running_task ≡ k.running_task
unfolding push_node
push_node-running i q k k' e =
    let (allowed, kept) = assert-inv (ltb i (length k.lists) && is_none (container q k)) _ e in
    let same : set_nodes i (q ∷ nodes i k) k ≡ k' = ok-inj kept in
    sym (ap (λ (k : Kernel). k.running_task) same)

-- `popback_node` takes the last node of a list that exists.
popback_node-inv :
    (i : ℕ) (k : Kernel) (r : Kernel × ℕ)
    → popback_node i k ≡ some r
    → (s : List ℕ × ℕ) × (unsnoc (nodes i k) ≡ some s) × ((set_nodes i s.0 k, s.1) ≡ r)
unfolding popback_node
popback_node-inv i k r e = elim (Option-cases (unsnoc (nodes i k))) [
  | inl n ↦ absurd (none-ne-some (rw (n, popback_node) at e))
  | inr (s, n) ↦ (s, n, some-inj (rw (n, popback_node) at e))
]

pub popback_node-running :
    (i : ℕ) (k : Kernel) (r : Kernel × ℕ)
    → popback_node i k ≡ some r
    → r.0.running_task ≡ k.running_task
popback_node-running i k r e =
    let (s, n, same) = popback_node-inv i k r e in
    sym (ap (λ (r : Kernel × ℕ). r.0.running_task) same)

pub popback_node-total :
    (i : ℕ) (k : Kernel) (r : Kernel × ℕ)
    → popback_node i k ≡ some r
    → (pid : ℕ) → total pid r.0.lists + one r.1 pid ≡ total pid k.lists
popback_node-total i k r e pid =
    omega
      (arith, popback_node-homes i k r e pid, ap (running_home pid) (popback_node-running i k r e))

pub popback_node-count :
    (i : ℕ) (k : Kernel) (r : Kernel × ℕ)
    → popback_node i k ≡ some r
    → (pid : ℕ) → one r.1 pid ≤ count pid (nodes i k)
popback_node-count i k r e pid =
    let (s, n, same) = popback_node-inv i k r e in
    omega (arith, count-unsnoc pid (nodes i k) s n, ap (λ (r : Kernel × ℕ). one r.1 pid) same)
