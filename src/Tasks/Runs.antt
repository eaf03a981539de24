-- ===== src/Tasks/Runs.antt =====
-- Runs of the scheduler: whatever sequence of its operations is called.
use rdix.Common.{
  ok-inj, ℕ, ◌≡◌, ◌≢◌, ◌∙◌, inl, inr, refl, sym, ap, false, ◌&&◌, Option, none, some, arith, ok,
  >>=-inv, Bool-cases, Option-cases,
}
use rdix.Tasks.{
  TaskState, task_running, task_blocked, same_state, Kernel, ready_list, nodes, unsnoc,
}
use rdix.Tasks.Sched.{
  schedule, or_running, block, unblock, task_sleep, clock_handler, Mutex, mutex_lock, mutex_unlock,
}
use rdix.Tasks.Homes.{running_home, homes, one_self}
use rdix.Tasks.Keep.{Kept, OneHome}
use rdix.Tasks.Steps.{schedule-Kept}
use rdix.Tasks.Sched.{no_waiter}
use rdix.Tasks.Ops.{block-Kept, unblock-Kept, task_sleep-Kept, clock_handler-Kept, or_running-inv}

-- One call: of the timer, of the running task, or of a driver. A task is blocked on a list other
-- than the ready one, and not with TASK_RUNNING for its state.
pub data Step (k k' : Kernel) : Type 0 where
  yields : schedule k ≡ ok k' → Step k k'
  ticks : clock_handler k ≡ ok k' → Step k k'
  sleeps : (time : ℕ) → task_sleep time k ≡ ok k' → Step k k'
  blocks :
      (list : ℕ) (task : Option ℕ) (s : TaskState) (pid : ℕ)
      → list ≢ ready_list
      → same_state s task_running ≡ false
      → or_running task k ≡ ok pid
      → homes pid k ≡ 1
      → block list task s k ≡ ok k'
      → Step k k'
  unblocks : (pid : ℕ) → unblock (some pid) k ≡ ok k' → Step k k'
  locks : (m m' : Mutex) → m.waiter ≢ ready_list → mutex_lock m k ≡ ok (m', k') → Step k k'
  unlocks : (m m' : Mutex) → mutex_unlock m k ≡ ok (m', k') → Step k k'

pub data Run : Kernel → Kernel → Type 0 where
  stop : {k : Kernel} → Run k k
  and_then : {k k1 k2 : Kernel} → Step k k1 → Run k1 k2 → Run k k2

lock-Kept :
    (m m' : Mutex) (k k' : Kernel)
    → OneHome k
    → m.waiter ≢ ready_list
    → mutex_lock m k ≡ ok (m', k')
    → Kept k k'
unfolding mutex_lock block
lock-Kept m m' k k' once apart e = elim (Bool-cases (m.value && no_waiter m k)) [
  | inl b ↦ λ p. sym (ap (λ (r : Mutex × Kernel). homes p r.1) (ok-inj (rw (b, mutex_lock) at e)))
  | inr b ↦
      let (k1, blocked, e1) =
        >>=-inv (block m.waiter none task_blocked k) _ (rw (b, mutex_lock) at e) in
      let (pid, chosen, e2) = >>=-inv (or_running none k) _ blocked in
      let alone : homes pid k ≡ 1 =
        omega
          (arith, once pid, ap (running_home pid) (or_running-inv k pid chosen), one_self pid) in
      let kept =
        block-Kept m.waiter none task_blocked k k1 pid once apart refl chosen alone blocked in
      λ p. sym (ap (λ (r : Mutex × Kernel). homes p r.1) (ok-inj e1)) ∙ kept p
]

unlock-Kept : (m m' : Mutex) (k k' : Kernel) → mutex_unlock m k ≡ ok (m', k') → Kept k k'
unfolding mutex_unlock
unlock-Kept m m' k k' e = elim (Option-cases (unsnoc (nodes m.waiter k))) [
  | inl n ↦ λ p. sym (ap (λ (r : Mutex × Kernel). homes p r.1) (ok-inj (rw (n, mutex_unlock) at e)))
  | inr (r, n) ↦
      let (k1, woken, e1) = >>=-inv (unblock (some r.1) k) _ (rw (n, mutex_unlock) at e) in
      let kept = unblock-Kept r.1 k k1 woken in
      λ p. sym (ap (λ (r : Mutex × Kernel). homes p r.1) (ok-inj e1)) ∙ kept p
]

Step-Kept : (k k' : Kernel) → OneHome k → Step k k' → Kept k k'
Step-Kept k k' once (yields e) = schedule-Kept k k' once e
Step-Kept k k' once (ticks e) = clock_handler-Kept k k' once e
Step-Kept k k' once (sleeps time e) = task_sleep-Kept time k k' once e
Step-Kept k k' once (blocks list task s pid apart idle chosen lives e) =
    block-Kept list task s k k' pid once apart idle chosen lives e
Step-Kept k k' once (unblocks pid e) = unblock-Kept pid k k' e
Step-Kept k k' once (locks m m' apart e) = lock-Kept m m' k k' once apart e
Step-Kept k k' once (unlocks m m' e) = unlock-Kept m m' k k' e

-- From a state in which no task is in two places, no sequence of calls that return loses a task or
-- puts one in two places: each is in as many places, lists and the processor together, as before.
pub Run-Kept : (k k' : Kernel) → OneHome k → Run k k' → Kept k k'
Run-Kept k k' once stop = λ p. refl
Run-Kept k k' once (and_then {k1 = k1} s r) =
    let first = Step-Kept k k1 once s in
    let rest = Run-Kept k1 k' (λ p. omega (arith, first p, once p)) r in λ p. rest p ∙ first p
