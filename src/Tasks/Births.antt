-- ===== src/Tasks/Births.antt =====
-- A new task has one place, and a task that ends leaves no children behind.
use rdix.Common.{
  ok-inj, panic-ne-ok, some-inj, none-ne-some, >>=-inv, ℕ, zero, suc, ◌+◌, ◌≡◌, ◌∙◌, inl, inr, refl,
  sym, ap, Option, none, some, List, [], ◌∷◌, arith, ok, ◌==◌, if◌then◌else◌, Bool-cases,
  Option-cases, get_or,
}
use rdix.Tasks.{Task, Kernel, ready_list, task_of, push_node}
use rdix.Tasks.Homes.{one, homes, push_node-homes}
use rdix.Tasks.Lifecycle.{free_pid, get_task, task_create, reparent}

free_pid-free : (ts : List (Option Task)) (p : ℕ) → free_pid ts ≡ some p → get_or ts p none ≡ none
unfolding free_pid
free_pid-free [] p e = refl
free_pid-free (none ∷ ts) p e = rw (sym (some-inj e)) refl
free_pid-free (some t ∷ ts) p e = elim (Option-cases (free_pid ts)) [
  | inl n ↦ absurd (none-ne-some (rw (n, free_pid) at e))
  | inr (q, n) ↦ rw (sym (some-inj (rw (n, free_pid) at e))) (free_pid-free ts q n)
]

get_task-inv :
    (page : Task) (k : Kernel) (r : ℕ × Kernel)
    → get_task page k ≡ ok r
    → (get_or k.task_bucket r.0 none ≡ none) × ((p : ℕ) → homes p r.1 ≡ homes p k)
unfolding get_task
get_task-inv page k r e = elim (Option-cases (free_pid k.task_bucket)) [
  | inl n ↦ absurd (panic-ne-ok (rw (n, get_task) at e))
  | inr (q, n) ↦
      let same = ok-inj (rw (n, get_task) at e) in
      (
        ap (λ (p : ℕ). get_or k.task_bucket p none) (sym (ap (λ (r : ℕ × Kernel). r.0) same))
            ∙ free_pid-free k.task_bucket q n,
        λ p. sym (ap (λ (r : ℕ × Kernel). homes p r.1) same),
      )
]

-- A task that is created gets a pid that no task has, and one place; every other task keeps its own.
pub task_create-homes :
    (page : Task) (stack priority uid : ℕ) (k : Kernel) (r : ℕ × Kernel)
    → task_create page stack priority uid k ≡ ok r
    → (get_or k.task_bucket r.0 none ≡ none) × ((p : ℕ) → homes p r.1 ≡ homes p k + one r.0 p)
unfolding task_create
task_create-homes page stack priority uid k r e =
    let (got, started, e1) = >>=-inv (get_task page k) _ e in
    let (t, read, e2) = >>=-inv (task_of got.0 got.1) _ e1 in
    let (k2, pushed, e3) = >>=-inv (push_node ready_list got.0 _) _ e2 in
    let same : (got.0, k2) ≡ r = ok-inj e3 in
    let (free, kept) = get_task-inv page k got started in
    (
      ap (λ (r : ℕ × Kernel). get_or k.task_bucket r.0 none) (sym same) ∙ free,
      λ p. omega (
        arith,
        ap (λ (r : ℕ × Kernel). homes p r.1) same,
        ap (λ (r : ℕ × Kernel). one r.0 p) same,
        push_node-homes ready_list got.0 _ k2 pushed p,
        kept p,
      ),
    )

-- the parent of a task whose parent was `p`
abbrev pub heir : ℕ → ℕ → ℕ → ℕ
heir pid ppid p = if p == pid then ppid else p

-- The children of a task that ends become those of its parent, and nothing else changes: a task at
-- any place of the bucket is still there, with the parent that it had unless that was the task.
pub reparent-heir :
    (pid ppid i : ℕ) (ts : List (Option Task)) (t : Task)
    → get_or ts i none ≡ some t
    → get_or (reparent pid ppid ts) i none ≡ some (record t { ppid = heir pid ppid t.ppid })
unfolding reparent
reparent-heir pid ppid i [] t e = absurd (none-ne-some e)
reparent-heir pid ppid zero (none ∷ ts) t e = absurd (none-ne-some e)
reparent-heir pid ppid zero (some c ∷ ts) t e = rw (sym (some-inj e)) (heir_of c)
  where
    heir_of :
        (c : Task)
        → (if c.ppid == pid then some (record c { ppid = ppid }) else some c)
          ≡ some (record c { ppid = heir pid ppid c.ppid })
    heir_of c = elim (Bool-cases (c.ppid == pid)) [ inl b ↦ rw b refl | inr b ↦ rw b refl ]
reparent-heir pid ppid (suc i) (none ∷ ts) t e = reparent-heir pid ppid i ts t e
reparent-heir pid ppid (suc i) (some c ∷ ts) t e = reparent-heir pid ppid i ts t e
