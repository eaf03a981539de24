-- ===== src/Tasks/Ops.antt =====
-- `block`, `unblock`, `task_sleep`, the tick and the locks keep every task in its one place.
use rdix.Common.{
  ok-inj, panic-ne-ok, some-inj, ℕ, ◌+◌, ◌≡◌, ◌≢◌, ◌⊎◌, ◌∙◌, inl, inr, refl, sym, ap, false, ◌||◌,
  Option, none, some, List, [], ◌∷◌, arith, ok, >>=-inv, assert-inv, ltb, ◌==◌, ltb→lt, ==→eq,
  Bool-cases, Option-cases, length, u32,
}
use rdix.Tasks.{
  TaskState, task_running, task_ready, task_sleeping, same_state, Task, Kernel, sleep_list,
  ready_list, rdix_magic, nodes, set_nodes, task_of, set_task, count, container, is_none, push_node,
  remove_task,
}
use rdix.Tasks.Sched.{
  set_state, schedule, or_running, leave_list, block, unblock, insert_at, task_sleep, weakup,
  end_tick, clock_handler, value_of, slices, any_later,
}
use rdix.Tasks.Homes.{
  one, total, running_home, homes, one_self, total-set, push_node-homes, remove_task-homes,
  push_node-running,
}
use rdix.Tasks.Homes.{count-le-total}
use rdix.Common.{get_or-set_ne}
use rdix.Tasks.Keep.{Kept, OneHome, set_state-homes, homes-eq}
use rdix.Tasks.Steps.{
  schedule-Kept, park-Kept, leave_list-homes, set_state-read, task_of-bucket, push_node-inv,
  push_node-nodes, task_of-inv, write-read,
}
use rdix.Common.{leb, sub32}

-- A task that is in one place, and on no list, runs.
running-of : (pid : ℕ) (running : Option ℕ) → running_home pid running ≡ 1 → running ≡ some pid
running-of pid none e = absurd (omega arith)
running-of pid (some q) e = ap some (ground (arith, ==→eq q pid, e))

-- `block` once the task is known.
block_task-Kept :
    (list pid : ℕ) (s : TaskState) (k k1 k2 k3 k' : Kernel)
    → OneHome k
    → list ≢ ready_list
    → same_state s task_running ≡ false
    → homes pid k ≡ 1
    → set_state pid s k ≡ ok k1
    → leave_list pid k1 ≡ ok k2
    → push_node list pid k2 ≡ ok k3
    → schedule k3 ≡ ok k'
    → Kept k k'
block_task-Kept list pid s k k1 k2 k3 k' once apart idle lives stated left pushed run =
    let kept1 = set_state-homes pid s k k1 stated in
    let homes1 = homes-eq k k1 kept1 in
    let homes3 = push_node-homes list pid k2 k3 pushed in
    elim (leave_list-homes pid k1 k2 left) [
      | inl (nowhere, unchanged) ↦
          let added : (p : ℕ) → homes p k3 ≡ homes p k + one pid p =
            λ p. omega (arith, homes3 p, ap (homes p) unchanged, homes1 p) in
          let runs : k.running_task ≡ some pid =
            running-of pid k.running_task (omega (arith, lives, nowhere, ap (total pid) kept1.0)) in
          let runs3 : k3.running_task ≡ some pid =
            push_node-running list pid k2 k3 pushed
            ∙ ap (λ (k : Kernel). k.running_task) unchanged
            ∙ kept1.1
            ∙ runs in
          let ready : count pid (nodes ready_list k3) ≡ 0 = omega (
            arith,
            ap (count pid) (
                push_node-nodes list ready_list pid k2 k3 pushed apart
                ∙ ap (nodes ready_list) unchanged),
            count-le-total pid ready_list k1.lists,
            nowhere,
          ) in
          park-Kept pid k k3 k' runs3 added
            (omega (arith, ready, added pid, lives, one_self pid, ap (running_home pid) runs3))
            (λ t read.
              ap (λ s. same_state s task_running)
                (set_state-read pid s k k1 stated t (
                  sym (
                    task_of-bucket pid k1 k3 (
                      sym (ap (λ (k : Kernel). k.task_bucket) (push_node-inv list pid k2 k3 pushed))
                      ∙ ap (λ (k : Kernel). k.task_bucket) unchanged))
                  ∙ read))
              ∙ idle)
            run
      | inr removed ↦
          let same : Kept k k3 = λ p. omega (arith, homes3 p, removed p, homes1 p) in
          let kept = schedule-Kept k3 k' (λ p. omega (arith, same p, once p)) run in
          λ p. omega (arith, kept p, same p)
    ]

pub block-Kept :
    (list : ℕ) (task : Option ℕ) (s : TaskState) (k k' : Kernel) (pid : ℕ)
    → OneHome k
    → list ≢ ready_list
    → same_state s task_running ≡ false
    → or_running task k ≡ ok pid
    → homes pid k ≡ 1
    → block list task s k ≡ ok k'
    → Kept k k'
unfolding block
block-Kept list task s k k' pid once apart idle chosen lives e =
    let (k1, stated, e1) = >>=-inv (set_state pid s k) _ (rw (chosen, block) at e) in
    let (k2, left, e2) = >>=-inv (leave_list pid k1) _ e1 in
    let (k3, pushed, run) = >>=-inv (push_node list pid k2) _ e2 in
    block_task-Kept list pid s k k1 k2 k3 k' once apart idle lives stated left pushed run

-- A task taken out of its list and put on the ready one.
wake-Kept :
    (pid : ℕ) (s : TaskState) (k k1 k2 k' : Kernel)
    → remove_task pid k ≡ ok k1
    → push_node ready_list pid k1 ≡ ok k2
    → set_state pid s k2 ≡ ok k'
    → Kept k k'
wake-Kept pid s k k1 k2 k' removed pushed stated p = omega (
  arith,
  remove_task-homes pid k k1 removed p,
  push_node-homes ready_list pid k1 k2 pushed p,
  homes-eq k2 k' (set_state-homes pid s k2 k' stated) p,
)

pub unblock-Kept : (pid : ℕ) (k k' : Kernel) → unblock (some pid) k ≡ ok k' → Kept k k'
unfolding unblock
unblock-Kept pid k k' e =
    let (k1, removed, e1) = >>=-inv (remove_task pid k) _ e in
    let (k2, pushed, stated) = >>=-inv (push_node ready_list pid k1) _ e1 in
    wake-Kept pid task_ready k k1 k2 k' removed pushed stated

List-cases : (xs : List ℕ) → (xs ≡ []) ⊎ ((x : ℕ) × (ys : List ℕ) × (xs ≡ x ∷ ys))
List-cases [] = inl refl
List-cases (x ∷ ys) = inr (x, ys, refl)

weakup-Kept : (k k' : Kernel) → weakup k ≡ ok k' → Kept k k'
unfolding weakup
weakup-Kept k k' e = elim (List-cases (nodes sleep_list k)) [
  | inl n ↦ λ pid. sym (ap (homes pid) (ok-inj (rw (n, weakup) at e)))
  | inr (pid, later, n) ↦ elim (Bool-cases (leb (value_of k pid) k.jiffies)) [
    | inl b ↦
        let (k1, removed, e1) = >>=-inv (remove_task pid k) _ (rw (n, b, weakup) at e) in
        let (k2, stated, pushed) = >>=-inv (set_state pid task_ready k1) _ e1 in
        λ p. omega (
          arith,
          remove_task-homes pid k k1 removed p,
          homes-eq k1 k2 (set_state-homes pid task_ready k1 k2 stated) p,
          push_node-homes ready_list pid k2 k' pushed p,
        )
    | inr b ↦ λ p. sym (ap (homes p) (ok-inj (rw (n, b, weakup) at e)))
  ]
]

count-insert_at :
    (value : ℕ → ℕ) (pid q : ℕ) (xs : List ℕ)
    → count pid (insert_at value q xs) ≡ count pid xs + one q pid
unfolding insert_at
count-insert_at value pid q [] = omega arith
count-insert_at value pid q (x ∷ xs) = elim (Bool-cases (ltb (value q) (value x))) [
  | inl b ↦ rw (b, insert_at) (omega arith)
  | inr b ↦ rw (b, insert_at) (omega (arith, count-insert_at value pid q xs))
]

pub or_running-inv : (k : Kernel) (pid : ℕ) → or_running none k ≡ ok pid → k.running_task ≡ some pid
or_running-inv k pid e = elim (Option-cases k.running_task) [
  | inl n ↦ absurd (panic-ne-ok (rw n at e))
  | inr (q, n) ↦ n ∙ ap some (ok-inj (rw n at e))
]

pub task_sleep-Kept : (time : ℕ) (k k' : Kernel) → OneHome k → task_sleep time k ≡ ok k' → Kept k k'
unfolding task_sleep
task_sleep-Kept time k k' once e =
    let (pid, chosen, e1) = >>=-inv (or_running none k) _ e in
    let (t, read, e2) = >>=-inv (task_of pid k) _ e1 in
    let k1 = asleep pid t in
    let sleepers = nodes sleep_list k1 in
    let (inside, e3) = assert-inv (ltb sleep_list (length k1.lists)) _ e2 in
    let (free, run) =
      assert-inv (is_none (container pid k1) || any_later (value_of k1) pid sleepers) _ e3 in
    let k3 = set_nodes sleep_list (insert_at (value_of k1) pid sleepers) k1 in
    let runs : k.running_task ≡ some pid = or_running-inv k pid chosen in
    let added : (p : ℕ) → homes p k3 ≡ homes p k + one pid p = λ p. omega (
      arith,
      total-set p sleep_list (insert_at (value_of k1) pid sleepers) k.lists
          (ltb→lt sleep_list (length k.lists) inside),
      count-insert_at (value_of k1) p pid sleepers,
    ) in
    let ready =
      get_or-set_ne k.lists sleep_list ready_list (insert_at (value_of k1) pid sleepers) []
        (λ e. omega (arith, e)) in
    park-Kept pid k k3 k' runs added
      (omega (
        arith,
        ap (count pid) ready,
        count-le-total pid ready_list k.lists,
        added pid,
        one_self pid,
      ))
      (λ s found.
        ap (λ (t : Task). same_state t.state task_running)
          (sym (
            some-inj (
              sym (write-read pid k.task_bucket t (asleep_task t) (task_of-inv pid k t read))
              ∙ task_of-inv pid k3 s found))))
      run
  where
    asleep_task : Task → Task
    asleep_task t = record t { value = u32 (k.jiffies + slices time); state = task_sleeping }

    asleep : ℕ → Task → Kernel
    asleep pid t = set_task pid (asleep_task t) k

end_tick-Kept : (current : ℕ) (k k' : Kernel) → OneHome k → end_tick current k ≡ ok k' → Kept k k'
unfolding end_tick
end_tick-Kept current k k' once e =
    let (t, read, e1) = >>=-inv (task_of current k) _ e in
    elim (Bool-cases (sub32 t.ticks 1 == 0)) [
      | inl b ↦
          schedule-Kept (set_task current (record t { ticks = t.priority }) k) k' once (rw b at e1)
      | inr b ↦ λ p. sym (ap (homes p) (ok-inj (rw b at e1)))
    ]

pub clock_handler-Kept : (k k' : Kernel) → OneHome k → clock_handler k ≡ ok k' → Kept k k'
unfolding clock_handler
clock_handler-Kept k k' once e = elim (Option-cases k.running_task) [
  | inl n ↦ schedule-Kept k k' once (rw (n, clock_handler) at e)
  | inr (c, n) ↦
      let (t, read, e1) = >>=-inv (task_of c k) _ (rw (n, clock_handler) at e) in
      let (magic, e2) = assert-inv (t.magic == rdix_magic) _ e1 in
      let (k1, woke, ticked) = >>=-inv (weakup _) _ e2 in
      let woken = weakup-Kept _ k1 woke in
      let kept = end_tick-Kept c k1 k' (λ p. omega (arith, woken p, once p)) ticked in
      λ p. omega (arith, kept p, woken p)
]
