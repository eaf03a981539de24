-- ===== src/Tasks/Lifecycle.antt =====
-- How tasks come and go in kernel/task.c: get_task, task_create, sys_exit, kernel_thread_exit and
-- sys_waitpid. The memory, the directories and the files that they give back are not modelled.
use rdix.Common.{
  ℕ, suc, ◌+◌, Bool, true, false, ◌&&◌, Option, none, some, List, [], ◌∷◌, Outcome, ok, panic,
  ◌>>=◌, ◌==◌, if◌then◌else◌, set,
}
use rdix.Tasks.{
  task_ready, task_waiting, task_died, same_state, Task, Kernel, block_list, ready_list, died_list,
  rdix_magic, task_of, set_task, push_node, remove_task,
}
use rdix.Tasks.Sched.{schedule, block, unblock, or_running}

-- the first pid without a task
unfoldable pub free_pid : List (Option Task) → Option ℕ
free_pid [] = none
free_pid (none ∷ ts) = some 0
free_pid (some t ∷ ts) = let on = free_pid ts in elim on [ none ↦ none | some p ↦ some (suc p) ]

-- 0 before a task runs
abbrev running_pid : Option ℕ → ℕ
running_pid none = 0
running_pid (some p) = p

-- `page` is what the memory of the new TCB holds. The node's value is 0.
unfoldable pub get_task : Task → Kernel → Outcome (ℕ × Kernel)
unfolding free_pid
get_task page k = elim (free_pid k.task_bucket) [
  | none ↦ panic
  | some pid ↦
      ok (pid, set_task pid (record page { ppid = running_pid k.running_task; value = 0 }) k)
]

-- `stack` is the address of the frame that is built in the task's page.
unfoldable pub task_create : Task → ℕ → ℕ → ℕ → Kernel → Outcome (ℕ × Kernel)
unfolding get_task task_of
task_create page stack priority uid k = do
  (pid, k1) ← get_task page k
  t ← task_of pid k1
  let tcb = record t {
    value = priority;
    stack = stack;
    state = task_ready;
    priority = priority;
    ticks = priority;
    jiffies = 0;
    uid = uid;
    pde = 4096;
    magic = rdix_magic;
    waitpid = some 0;
  }
  k2 ← push_node ready_list pid (set_task pid tcb k1)
  ok (pid, k2)

-- The children of `pid` become those of its parent.
unfoldable pub reparent : ℕ → ℕ → List (Option Task) → List (Option Task)
reparent pid ppid [] = []
reparent pid ppid (none ∷ ts) = none ∷ reparent pid ppid ts
reparent pid ppid (some child ∷ ts) =
    let rest = reparent pid ppid ts in
    (if child.ppid == pid then some (record child { ppid = ppid }) else some child) ∷ rest

-- `-1` waits for every child
abbrev pub waits_for : ℕ → Option ℕ → Bool
waits_for pid none = true
waits_for pid (some wanted) = wanted == pid

-- The parent, if it waits for the task that has died.
unfoldable pub wake_parent : ℕ → ℕ → Kernel → Outcome Kernel
wake_parent pid ppid k = do
  parent ← task_of ppid k
  if same_state parent.state task_waiting && waits_for pid parent.waitpid
      then unblock (some ppid) k
      else ok k

unfoldable pub orphan : ℕ → Kernel → Outcome Kernel
unfolding reparent
orphan pid k = do
  t ← task_of pid k
  ok (record k { task_bucket = reparent pid t.ppid k.task_bucket })

unfoldable pub sys_exit : ℕ → Kernel → Outcome Kernel
unfolding orphan wake_parent
sys_exit status k = do
  pid ← or_running none k
  k1 ← push_node died_list pid k
  t ← task_of pid k1
  k2 ← orphan pid (set_task pid (record t { state = task_died; status = status }) k1)
  k3 ← wake_parent pid t.ppid k2
  schedule k3

abbrev is_running : ℕ → Kernel → Bool
is_running pid k = elim k.running_task [ none ↦ false | some p ↦ p == pid ]

-- Of the running task, or of one that is on a list. The parent is read from the task again.
unfoldable pub kernel_thread_exit : Option ℕ → ℕ → Kernel → Outcome Kernel
unfolding orphan wake_parent
kernel_thread_exit th status k = do
  pid ← or_running th k
  t ← task_of pid k
  k1 ← orphan pid (set_task pid (record t { status = status }) k)
  k2 ← (if is_running pid k then ok k1 else remove_task pid k1)
  k3 ← push_node died_list pid k2
  t3 ← task_of pid k3
  k4 ← wake_parent pid t3.ppid (set_task pid (record t3 { state = task_died }) k3)
  if is_running pid k then schedule k4 else ok k4

-- What the loop of `sys_waitpid` finds: the first child that is asked for.
unfoldable pub find_child : ℕ → Option ℕ → ℕ → List (Option Task) → Option (ℕ × Task)
find_child parent pid i [] = none
find_child parent pid i (none ∷ ts) = find_child parent pid (i + 1) ts
find_child parent pid i (some child ∷ ts) =
    let rest = find_child parent pid (i + 1) ts in
    if child.ppid == parent && waits_for i pid then some (i, child) else rest

-- How `sys_waitpid` goes on.
pub data Wait : Type 0 where
  reaped : ℕ → ℕ → Kernel → Wait
  waiting : ℕ → Kernel → Wait
  no_child : Wait

-- `freeTask`: the pid and the status of the child, which leaves the bucket and its list.
unfoldable pub free_task : ℕ → Kernel → Outcome Wait
free_task child k = do
  t ← task_of child k
  k1 ← remove_task child (record k { task_bucket = set k.task_bucket child none })
  ok (reaped child t.status k1)

-- `if (has_child)` and what leads to it: a child that has died is freed, for another one the caller
-- waits.
unfoldable pub wait_for : ℕ → Option ℕ → Task → Kernel → Option (ℕ × Task) → Outcome Wait
unfolding free_task
wait_for self pid t k none = ok no_child
wait_for self pid t k (some found) =
    if same_state found.1.state task_died then free_task found.0 k else (do
      k1 ← block block_list none task_waiting (set_task self (record t { waitpid = pid }) k)
      ok (waiting found.0 k1))

-- Up to where the caller waits; it goes on with `free_task` of the child that was found.
unfoldable pub sys_waitpid : Option ℕ → Kernel → Outcome Wait
unfolding find_child wait_for
sys_waitpid pid k = do
  self ← or_running none k
  t ← task_of self k
  wait_for self pid t k (find_child self pid 0 k.task_bucket)
