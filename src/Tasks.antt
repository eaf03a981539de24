-- ===== src/Tasks.antt =====
-- kernel/task.c, kernel/mutex.c and kernel/clock.c: tasks, the lists they stand in, and who runs.
-- A list node is known by the pid of the task that owns it. A list is the sequence of its nodes from
-- `end.next` to `end.previous`; LinkedList shows that the pointers of common/list.h do the same.
-- Interrupts are off during each operation, so an operation is one step.
pub mod Sched
pub mod Lifecycle
pub mod Homes
pub mod Births
pub mod Keep
pub mod Steps
pub mod Ops
pub mod Runs
pub mod Turns
mod Tests
use rdix.Common.{
  ℕ, zero, suc, ◌+◌, ◌≡◌, Bool, true, false, ◌&&◌, ◌||◌, not, Option, none, some, List, [], ◌∷◌,
  ◌++◌, Outcome, ok, panic, ◌>>=◌, ◌>>◌, assert, ltb, ◌==◌, if◌then◌else◌, length, get_or, set, u32,
}

pub data TaskState : Type 0 where
  task_init task_running task_ready task_blocked task_sleeping task_waiting task_died : TaskState

-- `TCB_t`, where a `waitpid` of -1 is `none`, and the `value` of the node that it owns. The `pid` is the
-- task's place in `task_bucket`. The name, the group, the files, the directories, `umask`, `brk` and
-- the memory map are not modelled.
pub record Task : Type 0 where
  pub stack : ℕ
  pub state : TaskState
  pub status : ℕ
  pub priority : ℕ
  pub ticks : ℕ
  pub jiffies : ℕ
  pub uid : ℕ
  pub ppid : ℕ
  pub waitpid : Option ℕ
  pub pde : ℕ
  pub magic : ℕ
  pub value : ℕ

-- `task_bucket`, the lists, `running_task`, `jiffies`, the page directory in use and `tss.esp0`.
pub record Kernel : Type 0 where
  pub task_bucket : List (Option Task)
  pub lists : List (List ℕ)
  pub running_task : Option ℕ
  pub jiffies : ℕ
  pub cr3 : ℕ
  pub esp0 : ℕ

-- Where the four lists stand in `lists`; the waiters of mutexes and devices stand behind them.
abbrev pub block_list : ℕ
block_list = 0

abbrev pub sleep_list : ℕ
sleep_list = 1

abbrev pub ready_list : ℕ
ready_list = 2

abbrev pub died_list : ℕ
died_list = 3

abbrev pub rdix_magic : ℕ
rdix_magic = 16846871

abbrev pub same_state : TaskState → TaskState → Bool
same_state task_init task_init = true
same_state task_running task_running = true
same_state task_ready task_ready = true
same_state task_blocked task_blocked = true
same_state task_sleeping task_sleeping = true
same_state task_waiting task_waiting = true
same_state task_died task_died = true
same_state _ _ = false

abbrev pub nodes : ℕ → Kernel → List ℕ
nodes i k = get_or k.lists i []

abbrev pub set_nodes : ℕ → List ℕ → Kernel → Kernel
set_nodes i xs k = record k { lists = set k.lists i xs }

-- The task of a pid. A node without a task in the bucket is freed memory.
unfoldable pub task_of : ℕ → Kernel → Outcome Task
task_of pid k = elim (get_or k.task_bucket pid none) [ none ↦ panic | some t ↦ ok t ]

abbrev pub set_task : ℕ → Task → Kernel → Kernel
set_task pid t k = record k { task_bucket = set k.task_bucket pid (some t) }

abbrev pub count : ℕ → List ℕ → ℕ
count pid [] = 0
count pid (q ∷ qs) = (if q == pid then 1 else 0) + count pid qs

-- the first occurrence taken out
abbrev pub remove : ℕ → List ℕ → List ℕ
remove pid [] = []
remove pid (q ∷ qs) = let rest = remove pid qs in if q == pid then qs else q ∷ rest

-- `node->container`: the list that the node is in, if any.
unfoldable pub container_in : ℕ → List (List ℕ) → Option ℕ
container_in pid [] = none
container_in pid (xs ∷ ls) =
    let behind = container_in pid ls in
    elim (ltb 0 (count pid xs)) [
      | true ↦ some 0
      | false ↦ elim behind [ none ↦ none | some i ↦ some (suc i) ]
    ]

abbrev pub container : ℕ → Kernel → Option ℕ
container pid k = container_in pid k.lists

abbrev pub is_none : Option ℕ → Bool
is_none none = true
is_none (some i) = false

-- `list_push`: at the head; the node must be in no list. A number behind the lists is no list.
unfoldable pub push_node : ℕ → ℕ → Kernel → Outcome Kernel
push_node i pid k =
    assert (ltb i (length k.lists) && is_none (container pid k))
    >> ok (set_nodes i (pid ∷ nodes i k) k)

-- `remove_node`: the node must be in a list.
unfoldable pub remove_from : Option ℕ → ℕ → Kernel → Outcome Kernel
remove_from none pid k = panic
remove_from (some i) pid k = ok (set_nodes i (remove pid (nodes i k)) k)

abbrev pub remove_task : ℕ → Kernel → Outcome Kernel
remove_task pid k = remove_from (container pid k) pid k

-- The last node and those before it.
unfoldable pub unsnoc : List ℕ → Option (List ℕ × ℕ)
unsnoc [] = none
unsnoc (q ∷ qs) =
    let rest = unsnoc qs in elim rest [ none ↦ some ([], q) | some r ↦ some (q ∷ r.0, r.1) ]

-- `list_popback`: NULL on an empty list.
unfoldable pub popback_node : ℕ → Kernel → Option (Kernel × ℕ)
popback_node i k = elim (unsnoc (nodes i k)) [
  | none ↦ none
  | some r ↦ some (set_nodes i r.0 k, r.1)
]
