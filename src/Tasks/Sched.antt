-- ===== src/Tasks/Sched.antt =====
-- The scheduler of kernel/task.c, the tick of kernel/clock.c and the lock of kernel/mutex.c.
use rdix.Common.{
  ℕ, ◌+◌, ◌-◌, ◌/◌, ◌%◌, Bool, true, false, ◌&&◌, ◌||◌, Option, none, some, List, [], ◌∷◌, Outcome,
  ok, panic, ◌>>=◌, ◌>>◌, assert, ltb, leb, ◌==◌, if◌then◌else◌, length, get_or, u32, sub32,
}
use rdix.Tasks.{
  TaskState, task_running, task_ready, task_sleeping, task_blocked, same_state, Task, Kernel,
  block_list, sleep_list, ready_list, rdix_magic, nodes, set_nodes, task_of, set_task, container,
  is_none, push_node, remove_task, unsnoc, popback_node,
}

abbrev pub page_size : ℕ
page_size = 4096

abbrev pub user_uid : ℕ
user_uid = 3

-- `task->state = state`
unfoldable pub set_state : ℕ → TaskState → Kernel → Outcome Kernel
set_state pid state k = do t ← task_of pid k; ok (set_task pid (record t { state = state }) k)

-- The task that runs gives way: it is put on the ready list unless `block` or `task_sleep` has put
-- it on another one.
unfoldable pub give_way : ℕ → Kernel → Outcome Kernel
give_way pid k =
    if is_none (container pid k)
    then (do k1 ← set_state pid task_ready k; push_node ready_list pid k1)
    else ok k

-- The page directory and, for a user task, the kernel stack of the task that comes.
unfoldable pub load_task : Task → Kernel → Kernel
load_task t k = record k {
  cr3 = t.pde;
  esp0 = if t.uid == user_uid then u32 (t.stack - t.stack % page_size + page_size) else k.esp0;
}

-- `schedule` once a task has been taken from the ready list. `task_switch` is the change of
-- `running_task`.
unfoldable pub switch_to : ℕ → Option ℕ → Kernel → Outcome Kernel
unfolding task_of
switch_to next none k = do next_tcb ← task_of next k; ok (record k { running_task = some next })
switch_to next (some current) k = do
  next_tcb ← task_of next k
  assert (next_tcb.magic == rdix_magic)
  k1 ← set_state next task_running k
  k2 ← give_way current k1
  ok (record (load_task next_tcb k2) { running_task = some next })

unfoldable pub schedule : Kernel → Outcome Kernel
schedule k = elim (popback_node ready_list k) [
  | none ↦ elim k.running_task [
    | none ↦ panic
    | some current ↦ (do
      current_tcb ← task_of current k
      assert (same_state current_tcb.state task_running)
      ok k)
  ]
  | some r ↦ switch_to r.1 r.0.running_task r.0
]

-- `task ? task : running_task`; without either, the code goes through NULL.
abbrev pub or_running : Option ℕ → Kernel → Outcome ℕ
or_running (some pid) k = ok pid
or_running none k = elim k.running_task [ none ↦ panic | some pid ↦ ok pid ]

-- `if (task->container) remove_node(task);`
unfoldable pub leave_list : ℕ → Kernel → Outcome Kernel
leave_list pid k = if is_none (container pid k) then ok k else remove_task pid k

unfoldable pub block : ℕ → Option ℕ → TaskState → Kernel → Outcome Kernel
block list task task_state k = do
  pid ← or_running task k
  k1 ← set_state pid task_state k
  k2 ← leave_list pid k1
  k3 ← push_node list pid k2
  schedule k3

-- A NULL task takes the last one of `block_list` out, and `remove_node` then fails its assertion.
unfoldable pub unblock : Option ℕ → Kernel → Outcome Kernel
unblock none k = elim (popback_node block_list k) [
  | none ↦ panic
  | some r ↦ (do
    k1 ← remove_task r.1 r.0
    k2 ← push_node ready_list r.1 k1
    set_state r.1 task_ready k2)
]
unblock (some pid) k = do
  k1 ← remove_task pid k
  k2 ← push_node ready_list pid k1
  set_state pid task_ready k2

-- `list_insert` with `greater`: before the first node with a greater value, else at the tail.
unfoldable pub insert_at : (ℕ → ℕ) → ℕ → List ℕ → List ℕ
insert_at value pid [] = pid ∷ []
insert_at value pid (q ∷ qs) =
    let rest = insert_at value pid qs in
    if ltb (value pid) (value q) then pid ∷ q ∷ qs else q ∷ rest

-- whether a node of the list has a greater value: only behind all of them is the node pushed, and
-- its container asserted
abbrev pub any_later : (ℕ → ℕ) → ℕ → List ℕ → Bool
any_later value pid [] = false
any_later value pid (q ∷ qs) = ltb (value pid) (value q) || any_later value pid qs

abbrev pub value_of : Kernel → ℕ → ℕ
value_of k pid = elim (get_or k.task_bucket pid none) [ none ↦ 0 | some t ↦ t.value ]

-- milliseconds in whole time slices, the last one counted in full
abbrev pub slices : ℕ → ℕ
slices time = if time % 10 == 0 then time / 10 else u32 (time / 10 + 1)

unfoldable pub task_sleep : ℕ → Kernel → Outcome Kernel
task_sleep time k = do
  pid ← or_running none k
  t ← task_of pid k
  let wake = u32 (k.jiffies + slices time)
  let k1 = set_task pid (record t { value = wake; state = task_sleeping }) k
  let sleepers = nodes sleep_list k1
  assert (ltb sleep_list (length k1.lists))
  assert (is_none (container pid k1) || any_later (value_of k1) pid sleepers)
  schedule (set_nodes sleep_list (insert_at (value_of k1) pid sleepers) k1)

-- The sleeper that is due first, if its time has come; one at each tick.
unfoldable pub weakup : Kernel → Outcome Kernel
weakup k = elim (nodes sleep_list k) [
  | [] ↦ ok k
  | pid ∷ later ↦
      if leb (value_of k pid) k.jiffies
      then (do
        k1 ← remove_task pid k
        k2 ← set_state pid task_ready k1
        push_node ready_list pid k2)
      else ok k
]

-- `if (--current->ticks == 0)`: at the end of its slice the task gets a new one and gives way.
unfoldable pub end_tick : ℕ → Kernel → Outcome Kernel
end_tick current k = do
  t ← task_of current k
  let left = sub32 t.ticks 1
  if left == 0
      then schedule (set_task current (record t { ticks = t.priority }) k)
      else ok (set_task current (record t { ticks = left }) k)

unfoldable pub clock_handler : Kernel → Outcome Kernel
clock_handler k = elim k.running_task [
  | none ↦ schedule k
  | some current ↦ (do
    t ← task_of current k
    assert (t.magic == rdix_magic)
    let now = u32 (k.jiffies + 1)
    k1 ← weakup (set_task current (record t { jiffies = now }) (record k { jiffies = now }))
    end_tick current k1)
]

-- `mutex_t`: whether it is free, and the list of its waiters.
pub record Mutex : Type 0 where
  pub value : Bool
  pub waiter : ℕ

abbrev pub no_waiter : Mutex → Kernel → Bool
no_waiter m k = length (nodes m.waiter k) == 0

-- `mutex_lock` up to where it returns or gives way. A task that had to wait holds the lock when it
-- runs again.
unfoldable pub mutex_lock : Mutex → Kernel → Outcome (Mutex × Kernel)
mutex_lock m k =
    if m.value && no_waiter m k
    then ok (record m { value = false }, k)
    else (do k' ← block m.waiter none task_blocked k; ok (m, k'))

unfoldable pub mutex_unlock : Mutex → Kernel → Outcome (Mutex × Kernel)
mutex_unlock m k = elim (unsnoc (nodes m.waiter k)) [
  | none ↦ ok (record m { value = true }, k)
  | some r ↦ (do k' ← unblock (some r.1) k; ok (m, k'))
]
