-- ===== src/Tasks/Steps.antt =====
-- Every operation of the scheduler keeps each task in its one place.
use rdix.Common.{
  ok-inj, panic-ne-ok, some-inj, none-ne-some, ℕ, zero, suc, ◌+◌, ◌<◌, ◌≡◌, ◌≢◌, ◌⊎◌, ◌∙◌, inl, inr,
  refl, sym, ap, true, false, ◌&&◌, Option, none, some, List, [], ◌∷◌, arith, ok, >>=-inv,
  assert-inv, ltb, Bool-cases, Option-cases, length, get_or, set,
}
use rdix.Tasks.{
  TaskState, task_running, same_state, Task, Kernel, ready_list, nodes, set_nodes, task_of,
  set_task, count, container, is_none, push_node, remove_task,
}
use rdix.Tasks.Sched.{set_state, schedule, leave_list}
use rdix.Tasks.Homes.{
  one, total, running_home, homes, one_self, container_in-none, remove_task-homes,
}
use rdix.Common.{get_or-set_ne}
use rdix.Tasks.{remove, remove_from}
use rdix.Tasks.Keep.{Kept, OneHome, schedule-homes}
use mathlib.Core.Path.{subst}

pub running-eq : (k : Kernel) {c q : ℕ} → k.running_task ≡ some c → k.running_task ≡ some q → c ≡ q
running-eq k e e' = some-inj (sym e ∙ e')

-- A running task in one place only is on no list, and then `schedule` moves tasks but keeps them.
pub schedule-Kept : (k k' : Kernel) → OneHome k → schedule k ≡ ok k' → Kept k k'
schedule-Kept k k' once e = elim (schedule-homes k k' e) [
  | inl (on_ready, kept) ↦ kept
  | inr (inl (c, t, was, read, runs, same)) ↦ λ pid. ap (homes pid) same
  | inr (inr (c, was, somewhere, kept)) ↦
      absurd (omega (arith, once c, somewhere, ap (running_home c) was, one_self c))
]

-- The running task, put on a list other than the ready one and not RUNNING, leaves the processor.
pub park-Kept :
    (pid : ℕ) (k k3 k' : Kernel)
    → k3.running_task ≡ some pid
    → ((p : ℕ) → homes p k3 ≡ homes p k + one pid p)
    → count pid (nodes ready_list k3) < total pid k3.lists
    → ((t : Task) → task_of pid k3 ≡ ok t → same_state t.state task_running ≡ false)
    → schedule k3 ≡ ok k'
    → Kept k k'
park-Kept pid k k3 k' running added parked state e = elim (schedule-homes k3 k' e) [
  | inl (on_ready, kept) ↦ absurd (omega (arith, on_ready pid running))
  | inr (inl (c, t, was, read, runs, same)) ↦
      let here : c ≡ pid = running-eq k3 was running in
      absurd (ground (arith, state t (subst (λ (q : ℕ). task_of q k3 ≡ ok t) here read), runs))
  | inr (inr (c, was, somewhere, kept)) ↦
      λ p. omega (arith, kept p, added p, ap (λ (q : ℕ). one q p) (running-eq k3 was running))
]

none-is_none : (o : Option ℕ) → is_none o ≡ true → o ≡ none
none-is_none none e = refl
none-is_none (some i) e = cc

pub leave_list-homes :
    (q : ℕ) (k k' : Kernel)
    → leave_list q k ≡ ok k'
    → ((total q k.lists ≡ 0) × (k' ≡ k)) ⊎ ((p : ℕ) → homes p k' + one q p ≡ homes p k)
unfolding leave_list
leave_list-homes q k k' e = elim (Bool-cases (is_none (container q k))) [
  | inl b ↦ inl (
    container_in-none q k.lists (none-is_none (container q k) b),
    sym (ok-inj (rw (b, leave_list) at e)),
  )
  | inr b ↦ inr (remove_task-homes q k k' (rw (b, leave_list) at e))
]

pub write-read :
    (q : ℕ) (b : List (Option Task)) (t t' : Task)
    → get_or b q none ≡ some t
    → get_or (set b q (some t')) q none ≡ some t'
write-read q [] t t' e = absurd (none-ne-some e)
write-read zero (o ∷ b) t t' e = refl
write-read (suc q) (o ∷ b) t t' e = write-read q b t t' e

pub task_of-inv :
    (q : ℕ) (k : Kernel) (t : Task) → task_of q k ≡ ok t → get_or k.task_bucket q none ≡ some t
unfolding task_of
task_of-inv q k t e = elim (Option-cases (get_or k.task_bucket q none)) [
  | inl n ↦ absurd (panic-ne-ok (rw (n, task_of) at e))
  | inr (s, n) ↦ n ∙ ap some (ok-inj (rw (n, task_of) at e))
]

pub set_state-inv :
    (q : ℕ) (s : TaskState) (k k' : Kernel)
    → set_state q s k ≡ ok k'
    → (t : Task) × (task_of q k ≡ ok t) × (set_task q (record t { state = s }) k ≡ k')
unfolding set_state
set_state-inv q s k k' e =
    let (t, read, wrote) = >>=-inv (task_of q k) _ e in (t, read, ok-inj wrote)

pub set_state-read :
    (q : ℕ) (s : TaskState) (k k' : Kernel)
    → set_state q s k ≡ ok k'
    → (t : Task) → task_of q k' ≡ ok t
    → t.state ≡ s
set_state-read q s k k' e t read =
    let (was, found, same) = set_state-inv q s k k' e in
    let now =
      write-read q k.task_bucket was (record was { state = s }) (task_of-inv q k was found) in
    let bucket = ap (λ (k : Kernel). get_or k.task_bucket q none) same in
    ap (λ (t : Task). t.state) (sym (some-inj (sym now ∙ bucket ∙ task_of-inv q k' t read)))

-- a list keeps the tasks when its nodes change
abbrev pub SameBucket : Kernel → Kernel → Type 0
SameBucket k k' = k'.task_bucket ≡ k.task_bucket

pub task_of-bucket : (q : ℕ) (k k' : Kernel) → SameBucket k k' → task_of q k' ≡ task_of q k
unfolding task_of
task_of-bucket q k k' e = rw e refl

pub push_node-inv :
    (i q : ℕ) (k k' : Kernel) → push_node i q k ≡ ok k' → set_nodes i (q ∷ nodes i k) k ≡ k'
unfolding push_node
push_node-inv i q k k' e =
    let (allowed, kept) = assert-inv (ltb i (length k.lists) && is_none (container q k)) _ e in
    ok-inj kept

pub push_node-nodes :
    (i j q : ℕ) (k k' : Kernel) → push_node i q k ≡ ok k' → i ≢ j → nodes j k' ≡ nodes j k
push_node-nodes i j q k k' e apart =
    sym (ap (nodes j) (push_node-inv i q k k' e))
    ∙ get_or-set_ne k.lists i j (q ∷ nodes i k) [] apart

-- Taking a node out of its list changes neither the tasks nor who runs.
abbrev pub SameTasks : Kernel → Kernel → Type 0
SameTasks k k' = SameBucket k k' × (k'.running_task ≡ k.running_task)

pub remove_task-same : (q : ℕ) (k k' : Kernel) → remove_task q k ≡ ok k' → SameTasks k k'
unfolding remove_from
remove_task-same q k k' e = elim (Option-cases (container q k)) [
  | inl n ↦ absurd (panic-ne-ok (rw n at e))
  | inr (i, n) ↦
      let same : set_nodes i (remove q (nodes i k)) k ≡ k' = ok-inj (rw n at e) in
      (
        sym (ap (λ (k : Kernel). k.task_bucket) same),
        sym (ap (λ (k : Kernel). k.running_task) same),
      )
]

pub leave_list-same : (q : ℕ) (k k' : Kernel) → leave_list q k ≡ ok k' → SameTasks k k'
unfolding leave_list
leave_list-same q k k' e = elim (Bool-cases (is_none (container q k))) [
  | inl b ↦
      let same : k ≡ k' = ok-inj (rw (b, leave_list) at e) in
      (
        sym (ap (λ (k : Kernel). k.task_bucket) same),
        sym (ap (λ (k : Kernel). k.running_task) same),
      )
  | inr b ↦ remove_task-same q k k' (rw (b, leave_list) at e)
]
