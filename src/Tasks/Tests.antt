-- ===== src/Tasks/Tests.antt =====
-- Runs of the scheduler.
use rdix.Common.{get_or, ◌+◌, ◌<◌, zero, suc}
use rdix.Tasks.{count}
use rdix.Tasks.Turns.{Alive, Running, times, times-Running}
use rdix.Tasks.Lifecycle.{free_pid, get_task, task_create}
use rdix.Tasks.Births.{task_create-homes}
use rdix.Tasks.Homes.{one, homes}
use rdix.Common.{ℕ, ◌≡◌, refl, none, some, [], ◌∷◌, arith, ok}
use rdix.Tasks.{
  TaskState, task_running, task_ready, Task, Kernel, rdix_magic, task_of, container_in, push_node,
  unsnoc, popback_node,
}
use rdix.Tasks.Sched.{
  set_state, give_way, load_task, switch_to, schedule, weakup, end_tick, clock_handler,
}
use rdix.Tasks.Keep.{Kept, OneHome}
use rdix.Tasks.Runs.{ticks, stop, and_then, Run-Kept}

abbrev a_task : TaskState → ℕ → Task
a_task s n = record {
  stack = 20000;
  state = s;
  status = 0;
  priority = 3;
  ticks = n;
  jiffies = 0;
  uid = 3;
  ppid = 0;
  waitpid = none;
  pde = 4096;
  magic = rdix_magic;
  value = 3;
}

-- the task 1 runs; 2 and 0 are ready, 0 for the longer time
abbrev before_tick : Kernel
before_tick = record {
  task_bucket =
      some (a_task task_ready 3) ∷ some (a_task task_running 1) ∷ some (a_task task_ready 3) ∷ [];
  lists = [] ∷ [] ∷ (2 ∷ 0 ∷ []) ∷ [] ∷ [];
  running_task = some 1;
  jiffies = 6;
  cr3 = 4096;
  esp0 = 0;
}

-- the slice of 1 is over, and 0 runs
abbrev after_tick : Kernel
after_tick = record {
  task_bucket =
      some (a_task task_running 3)
      ∷ some (record (a_task task_ready 3) { jiffies = 7 })
      ∷ some (a_task task_ready 3)
      ∷ [];
  lists = [] ∷ [] ∷ (1 ∷ 2 ∷ []) ∷ [] ∷ [];
  running_task = some 0;
  jiffies = 7;
  cr3 = 4096;
  esp0 = 20480;
}

tick_test : clock_handler before_tick ≡ ok after_tick
unfolding clock_handler weakup end_tick schedule switch_to give_way load_task set_state task_of
    popback_node unsnoc push_node container_in
tick_test = refl

before_tick-OneHome : OneHome before_tick
before_tick-OneHome pid = ground arith

Run-Kept_example : Kept before_tick after_tick
Run-Kept_example =
    Run-Kept before_tick after_tick before_tick-OneHome (and_then (ticks tick_test) stop)

-- The task 1 makes a child, which gets the pid 3.
abbrev born : Kernel
born = record before_tick {
  task_bucket =
      some (a_task task_ready 3)
      ∷ some (a_task task_running 1)
      ∷ some (a_task task_ready 3)
      ∷ some (record (a_task task_ready 2) {
        stack = 30000;
        priority = 2;
        uid = 0;
        ppid = 1;
        waitpid = some 0;
        value = 2;
      })
      ∷ [];
  lists = [] ∷ [] ∷ (3 ∷ 2 ∷ 0 ∷ []) ∷ [] ∷ [];
}

abbrev with_room : Kernel
with_room = record before_tick {
  task_bucket =
      some (a_task task_ready 3)
      ∷ some (a_task task_running 1)
      ∷ some (a_task task_ready 3)
      ∷ none
      ∷ [];
}

create_test : task_create (a_task task_ready 9) 30000 2 0 with_room ≡ ok (3, born)
unfolding task_create get_task free_pid task_of push_node container_in
create_test = refl

task_create-homes_example :
    (get_or with_room.task_bucket 3 none ≡ none)
    × ((p : ℕ) → homes p born ≡ homes p with_room + one 3 p)
task_create-homes_example =
    task_create-homes (a_task task_ready 9) 30000 2 0 with_room (3, born) create_test

before_tick-Alive : (pid : ℕ) → 0 < one 1 pid + count pid (2 ∷ 0 ∷ []) → Alive before_tick pid
before_tick-Alive zero h = (a_task task_ready 3, refl, refl)
before_tick-Alive (suc zero) h = (a_task task_running 1, refl, refl)
before_tick-Alive (suc (suc zero)) h = (a_task task_ready 3, refl, refl)
before_tick-Alive (suc (suc (suc n))) h = absurd (ground (arith, h))

before_tick-Running : Running before_tick 1
before_tick-Running = record {
  stored = omega arith;
  running = refl;
  alone = before_tick-OneHome;
  alive = before_tick-Alive;
}

-- The task 2 stands before the task 0, and so runs with the second call.
times-Running_example :
    (k' : Kernel) × (times 2 before_tick ≡ ok k') × (k'.running_task ≡ some 2) × Running k' 2
times-Running_example = times-Running 1 before_tick 1 2 [] (0 ∷ []) before_tick-Running refl refl
