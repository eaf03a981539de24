-- ===== src/Tasks/Keep.antt =====
-- The scheduler's operations lose no task and put none in two places.
use rdix.Common.{
  ok-inj, panic-ne-ok, some-inj, none-ne-some, ℕ, ◌+◌, ◌≤◌, ◌<◌, ◌≡◌, ◌⊎◌, ◌∙◌, inl, inr, refl, sym,
  ap, true, Option, none, some, arith, ok, panic, ◌>>=◌, ◌>>◌, assert, >>=-inv, assert-inv, ◌==◌,
  Option-cases,
}
use rdix.Tasks.{
  TaskState, task_running, task_ready, same_state, Task, Kernel, ready_list, rdix_magic, nodes,
  task_of, set_task, count, container, popback_node,
}
use rdix.Tasks.Sched.{set_state, give_way, load_task, switch_to, schedule}
use rdix.Tasks.Homes.{
  one, total, running_home, homes, container_in-none, push_node-homes, container_in-total,
  push_node-running, popback_node-running, popback_node-total, popback_node-count,
  popback_node-homes,
}

-- The same tasks in the same number of places.
abbrev pub Kept : Kernel → Kernel → Type 0
Kept k k' = (pid : ℕ) → homes pid k' ≡ homes pid k

abbrev pub OneHome : Kernel → Type 0
OneHome k = (pid : ℕ) → homes pid k ≤ 1

pub set_state-homes :
    (q : ℕ) (s : TaskState) (k k' : Kernel)
    → set_state q s k ≡ ok k'
    → (k'.lists ≡ k.lists) × (k'.running_task ≡ k.running_task)
unfolding set_state
set_state-homes q s k k' e =
    let (t, read, wrote) = >>=-inv (task_of q k) _ e in
    let same : set_task q (record t { state = s }) k ≡ k' = ok-inj wrote in
    (sym (ap (λ (k : Kernel). k.lists) same), sym (ap (λ (k : Kernel). k.running_task) same))

pub homes-eq :
    (k k' : Kernel) → (k'.lists ≡ k.lists) × (k'.running_task ≡ k.running_task) → Kept k k'
homes-eq k k' e pid = rw (e.0, e.1) refl

-- What giving way adds: a place on the ready list, where the task had none on a list.
give_way-homes :
    (q : ℕ) (k k' : Kernel)
    → give_way q k ≡ ok k'
    → (k'.running_task ≡ k.running_task)
      × (((total q k.lists ≡ 0) × ((pid : ℕ) → homes pid k' ≡ homes pid k + one q pid))
          ⊎ ((0 < total q k.lists) × (k' ≡ k)))
unfolding give_way
give_way-homes q k k' e = elim (Option-cases (container q k)) [
  | inl n ↦
      let (k1, stated, pushed) = >>=-inv (set_state q task_ready k) _ (rw (n, give_way) at e) in
      let same = set_state-homes q task_ready k k1 stated in
      (
        push_node-running ready_list q k1 k' pushed ∙ same.1,
        inl (
          container_in-none q k.lists n,
          λ pid.
              omega (arith, push_node-homes ready_list q k1 k' pushed pid, homes-eq k k1 same pid),
        ),
      )
  | inr (i, n) ↦
      let same : k ≡ k' = ok-inj (rw (n, give_way) at e) in
      (
        sym (ap (λ (k : Kernel). k.running_task) same),
        inr (container_in-total q i k.lists n, sym same),
      )
]

abbrev Switched : ℕ → Kernel → Kernel → Type 0
Switched next k k' =
    (((c : ℕ) → k.running_task ≡ some c → total c k.lists ≡ 0)
      × ((pid : ℕ) → homes pid k' ≡ homes pid k + one next pid))
    ⊎ ((c : ℕ) × (k.running_task ≡ some c)
        × (0 < total c k.lists)
        × ((pid : ℕ) → homes pid k' + one c pid ≡ homes pid k + one next pid))

-- What a switch changes: the task that comes gets the processor, and the one that gives way keeps a
-- place unless it has a second one.
switch_to-homes :
    (next : ℕ) (running : Option ℕ) (k k' : Kernel)
    → k.running_task ≡ running
    → switch_to next running k ≡ ok k'
    → Switched next k k'
unfolding switch_to load_task
switch_to-homes next none k k' n e =
    let (t, read, kept) = >>=-inv (task_of next k) _ e in
    let same : record k { running_task = some next } ≡ k' = ok-inj kept in
    inl (
      λ c was. absurd (none-ne-some (sym n ∙ was)),
      λ pid. omega (arith, ap (homes pid) same, ap (running_home pid) n),
    )
switch_to-homes next (some c) k k' n e =
    let (t, read, checked) = >>=-inv (task_of next k) _ e in
    let (magic, run) = assert-inv (t.magic == rdix_magic) _ checked in
    let (k1, stated, gave) = >>=-inv (set_state next task_running k) _ run in
    let (k2, given, kept) = >>=-inv (give_way c k1) _ gave in
    let same : record (load_task t k2) { running_task = some next } ≡ k' = ok-inj kept in
    let kept1 = set_state-homes next task_running k k1 stated in
    let (running2, placed) = give_way-homes c k1 k2 given in
    let was : k2.running_task ≡ some c = running2 ∙ kept1.1 ∙ n in
    let step : (pid : ℕ) → homes pid k' + one c pid ≡ homes pid k2 + one next pid =
      λ pid. omega (arith, ap (homes pid) same, ap (running_home pid) was) in
    elim placed [
      | inl (nowhere, added) ↦ inl (
        λ c' was'.
            ap (λ c. total c k.lists) (some-inj (sym was' ∙ n))
            ∙ ap (total c) (sym kept1.0)
            ∙ nowhere,
        λ pid. omega (arith, step pid, added pid, homes-eq k k1 kept1 pid),
      )
      | inr (somewhere, unchanged) ↦ inr (
        c,
        n,
        omega (arith, somewhere, ap (total c) kept1.0),
        λ pid. omega (arith, step pid, ap (homes pid) unchanged, homes-eq k k1 kept1 pid),
      )
    ]

-- What `schedule` changes: nothing but the order, if the running task is on no list but the ready
-- one; or nothing, if no task is ready and the running one goes on; or the running task, which has
-- another place, loses the processor.
abbrev pub Scheduled : Kernel → Kernel → Type 0
Scheduled k k' =
    (((c : ℕ) → k.running_task ≡ some c → total c k.lists ≤ count c (nodes ready_list k))
      × Kept k k')
    ⊎ (((c : ℕ) × (t : Task) × (k.running_task ≡ some c)
          × (task_of c k ≡ ok t)
          × (same_state t.state task_running ≡ true)
          × (k' ≡ k))
        ⊎ ((c : ℕ) × (k.running_task ≡ some c)
            × (0 < total c k.lists)
            × ((pid : ℕ) → homes pid k' + one c pid ≡ homes pid k)))

pub schedule-homes : (k k' : Kernel) → schedule k ≡ ok k' → Scheduled k k'
unfolding schedule
schedule-homes k k' e = elim (Option-cases (popback_node ready_list k)) [
  | inr (r, n) ↦
      let popped = popback_node-homes ready_list k r n in
      let same_running = popback_node-running ready_list k r n in
      elim (switch_to-homes r.1 r.0.running_task r.0 k' refl (rw (n, schedule) at e)) [
        | inl (nowhere, kept) ↦ inl (
          λ c was. omega (
            arith,
            nowhere c (same_running ∙ was),
            popback_node-total ready_list k r n c,
            popback_node-count ready_list k r n c,
          ),
          λ pid. omega (arith, kept pid, popped pid),
        )
        | inr (c, was, somewhere, kept) ↦ inr (
            inr (
              c,
              sym same_running ∙ was,
              omega (arith, somewhere, popback_node-total ready_list k r n c),
              λ pid. omega (arith, kept pid, popped pid),
            ))
      ]
  | inl n ↦ goes_on (rw (n, schedule) at e)
]
  where
    goes_on :
        (elim k.running_task [
          | none ↦ panic
          | some current ↦ (do
            current_tcb ← task_of current k
            assert (same_state current_tcb.state task_running)
            ok k)
        ])
          ≡ ok k'
        → Scheduled k k'
    goes_on e = elim (Option-cases k.running_task) [
      | inl n ↦ absurd (panic-ne-ok (rw n at e))
      | inr (c, n) ↦
          let (t, read, checked) = >>=-inv (task_of c k) _ (rw n at e) in
          let (runs, kept) = assert-inv (same_state t.state task_running) _ checked in
          inr (inl (c, t, n, read, runs, sym (ok-inj kept)))
    ]
