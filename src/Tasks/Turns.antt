-- ===== src/Tasks/Turns.antt =====
-- Who runs when `schedule` is called again and again.
use rdix.Common.{
  ℕ, zero, suc, ◌+◌, ◌<◌, ◌≡◌, ◌∙◌, inl, inr, refl, sym, ap, false, none, some, List, [], ◌∷◌, ◌++◌,
  arith, Outcome, ok, ◌>>=◌, ltb, ◌==◌, ==→eq, ==→ne, Bool-cases, length, get_or, set, length-set,
  get_or-set_self, get_or-set_ne, lt→ltb,
}
use rdix.Tasks.{
  TaskState, task_running, task_ready, Task, Kernel, ready_list, rdix_magic, nodes, set_nodes,
  task_of, set_task, count, container_in, container, push_node, unsnoc, popback_node,
}
use rdix.Tasks.Sched.{set_state, give_way, load_task, switch_to, schedule}
use rdix.Tasks.Homes.{one, total, running_home, one_self, total-set}
use rdix.Tasks.Keep.{OneHome}
use rdix.Tasks.Steps.{schedule-Kept, write-read}

-- The task is there, and its guard has not been overwritten.
abbrev pub Alive : Kernel → ℕ → Type 0
Alive k pid = (t : Task) × (get_or k.task_bucket pid none ≡ some t) × (t.magic ≡ rdix_magic)

-- Task `c` runs; it and the tasks that are ready are there, and no task is in two places.
pub record Running (k : Kernel) (c : ℕ) : Type 0 where
  pub stored : 2 < length k.lists
  pub running : k.running_task ≡ some c
  pub alone : OneHome k
  pub alive : (pid : ℕ) → 0 < one c pid + count pid (nodes ready_list k) → Alive k pid

unsnoc-append : (xs : List ℕ) (x : ℕ) → unsnoc (xs ++ (x ∷ [])) ≡ some (xs, x)
unfolding unsnoc
unsnoc-append [] x = refl
unsnoc-append (y ∷ ys) x = rw (unsnoc-append ys x) refl

pub count-append : (pid : ℕ) (xs ys : List ℕ) → count pid (xs ++ ys) ≡ count pid xs + count pid ys
count-append pid [] ys = omega arith
count-append pid (x ∷ xs) ys = omega (arith, count-append pid xs ys)

container_in-zero : (q : ℕ) (ls : List (List ℕ)) → total q ls ≡ 0 → container_in q ls ≡ none
unfolding container_in
container_in-zero q [] e = refl
container_in-zero q (xs ∷ ls) e =
    let none_here : ltb 0 (count q xs) ≡ false = ground (arith, e) in
    rw (none_here, container_in-zero q ls (omega (arith, e)), container_in) refl

Alive-set_task :
    (k : Kernel) (q p : ℕ) (t : Task) → t.magic ≡ rdix_magic → Alive k q → Alive (set_task p t k) q
Alive-set_task k q p t magic (s, there, its_magic) = elim (Bool-cases (p == q)) [
  | inl b ↦
      let same : p ≡ q = ==→eq p q b in
      (
        t,
        ap (λ p. get_or (set k.task_bucket p (some t)) q none) same
            ∙ write-read q k.task_bucket s t there,
        magic,
      )
  | inr b ↦ (s, get_or-set_ne k.task_bucket p q (some t) none (==→ne p q b) ∙ there, its_magic)
]

set_state-Alive :
    (k : Kernel) (q : ℕ) (s : TaskState)
    → Alive k q
    → (t : Task) × (t.magic ≡ rdix_magic) × (set_state q s k ≡ ok (set_task q t k))
unfolding set_state task_of
set_state-Alive k q s (t, there, magic) = (record t { state = s }, magic, rw (there, task_of) refl)

task_of-Alive :
    (k : Kernel) (q : ℕ) → Alive k q → (t : Task) × (t.magic ≡ rdix_magic) × (task_of q k ≡ ok t)
unfolding task_of
task_of-Alive k q (t, there, magic) = (t, magic, rw (there, task_of) refl)

push_node-free :
    (i q : ℕ) (k : Kernel)
    → i < length k.lists
    → container q k ≡ none
    → push_node i q k ≡ ok (set_nodes i (q ∷ nodes i k) k)
unfolding push_node
push_node-free i q k room free = rw (lt→ltb i (length k.lists) room, free) refl

give_way-free :
    (q : ℕ) (k : Kernel) (t : Task)
    → 2 < length k.lists
    → container q k ≡ none
    → set_state q task_ready k ≡ ok (set_task q t k)
    → give_way q k ≡ ok (set_nodes ready_list (q ∷ nodes ready_list k) (set_task q t k))
unfolding give_way
give_way-free q k t room free stated =
    rw (free, stated) (push_node-free ready_list q (set_task q t k) room free)

-- The kernel behind a switch from `c`.
abbrev handed : Kernel → ℕ → ℕ → Task → Task → Task → Kernel
handed k c next here coming leaving =
    let k2 = set_task c leaving (set_task next coming k) in
    record (load_task here (set_nodes ready_list (c ∷ nodes ready_list k2) k2)) {
      running_task = some next;
    }

switch_to-run :
    (k : Kernel) (c next : ℕ)
    → 2 < length k.lists
    → total c k.lists ≡ 0
    → Alive k c
    → Alive k next
    → (here coming leaving : Task) × (coming.magic ≡ rdix_magic)
      × (leaving.magic ≡ rdix_magic)
      × (switch_to next (some c) k ≡ ok (handed k c next here coming leaving))
unfolding switch_to
switch_to-run k c next stored nowhere alive_c alive_next =
    let (here, magic, read) = task_of-Alive k next alive_next in
    let (coming, magic1, run1) = set_state-Alive k next task_running alive_next in
    let k1 = set_task next coming k in
    let (leaving, magic2, run2) =
      set_state-Alive k1 c task_ready (Alive-set_task k c next coming magic1 alive_c) in
    let gave = give_way-free c k1 leaving stored (container_in-zero c k.lists nowhere) run2 in
    (here, coming, leaving, magic1, magic2, rw (read, magic, run1, gave) refl)

schedule-run :
    (k : Kernel) (c next : ℕ) (xs : List ℕ)
    → k.running_task ≡ some c
    → nodes ready_list k ≡ xs ++ (next ∷ [])
    → schedule k ≡ switch_to next (some c) (set_nodes ready_list xs k)
unfolding schedule popback_node
schedule-run k c next xs running e =
    rw (e, unsnoc-append xs next, running, popback_node, schedule) refl

module _ (k : Kernel) (c next : ℕ) (xs : List ℕ) (here coming leaving : Task) where
  abbrev behind : Kernel
  behind = handed (set_nodes ready_list xs k) c next here coming leaving

  behind-nodes : 2 < length k.lists → nodes ready_list behind ≡ c ∷ xs
  unfolding load_task
  behind-nodes stored =
      get_or-set_self (set k.lists 2 xs) 2 (c ∷ get_or (set k.lists 2 xs) 2 []) []
        (rw (length-set k.lists 2 xs) stored)
      ∙ ap (λ ys. c ∷ ys) (get_or-set_self k.lists 2 xs [] stored)

  behind-stored : 2 < length k.lists → 2 < length behind.lists
  unfolding load_task
  behind-stored stored =
      rw
        (
          length-set (set k.lists 2 xs) 2 (c ∷ get_or (set k.lists 2 xs) 2 []),
          length-set k.lists 2 xs,
        )
        stored

  behind-Alive :
      (pid : ℕ)
      → coming.magic ≡ rdix_magic
      → leaving.magic ≡ rdix_magic
      → Alive k pid
      → Alive behind pid
  unfolding load_task
  behind-Alive pid magic1 magic2 there =
      Alive-set_task (set_task next coming k) pid c leaving magic2
        (Alive-set_task k pid next coming magic1 there)

-- The last task of the ready list gets the processor, and the one that ran goes to its head.
schedule-next :
    (k : Kernel) (c next : ℕ) (xs : List ℕ)
    → Running k c
    → nodes ready_list k ≡ xs ++ (next ∷ [])
    → (k' : Kernel) × (schedule k ≡ ok k') × (nodes ready_list k' ≡ c ∷ xs) × Running k' next
unfolding load_task
schedule-next k c next xs s e =
    let k0 = set_nodes ready_list xs k in
    let stored0 : 2 < length k0.lists = rw (length-set k.lists 2 xs) s.stored in
    let counts : (pid : ℕ) → count pid (nodes ready_list k) ≡ count pid xs + one next pid =
      λ pid. ap (count pid) e ∙ count-append pid xs (next ∷ []) ∙ (omega arith) in
    let nowhere : total c k.lists ≡ 0 =
      omega (arith, s.alone c, ap (running_home c) s.running, one_self c) in
    let nowhere0 : total c k0.lists ≡ 0 =
      omega (arith, nowhere, total-set c 2 xs k.lists s.stored, counts c) in
    let alive_next : Alive k next = s.alive next (omega (arith, counts next, one_self next)) in
    let (here, coming, leaving, magic1, magic2, run) =
      switch_to-run k0 c next stored0 nowhere0 (s.alive c (omega (arith, one_self c))) alive_next in
    let k' = behind k c next xs here coming leaving in
    let all : schedule k ≡ ok k' = schedule-run k c next xs s.running e ∙ run in
    let at_head = behind-nodes k c next xs here coming leaving s.stored in
    (
      k',
      all,
      at_head,
      record {
        stored = behind-stored k c next xs here coming leaving s.stored;
        running = refl;
        alone = λ pid. omega (arith, s.alone pid, schedule-Kept k k' s.alone all pid);
        alive = λ pid h.
            behind-Alive k c next xs here coming leaving pid magic1 magic2
              (s.alive pid (omega (arith, h, ap (count pid) at_head, counts pid)));
      },
    )

-- `schedule` called `n` times
unfoldable pub times : ℕ → Kernel → Outcome Kernel
times zero k = ok k
times (suc n) k = do k' ← schedule k; times n k'

-- the last node and those before it
snoc-view :
    (y : ℕ) (ys : List ℕ)
    → (zs : List ℕ) × (z : ℕ) × (y ∷ ys ≡ zs ++ (z ∷ [])) × (length zs ≡ length ys)
snoc-view y [] = ([], y, refl, refl)
snoc-view y (x ∷ ys) =
    let (zs, z, e, n) = snoc-view x ys in (y ∷ zs, z, ap (λ r. y ∷ r) e, ap suc n)

append_assoc : (xs ys zs : List ℕ) → (xs ++ ys) ++ zs ≡ xs ++ (ys ++ zs)
append_assoc [] ys zs = refl
append_assoc (x ∷ xs) ys zs = ap (λ r. x ∷ r) (append_assoc xs ys zs)

-- Where the running task and the ready ones are there and each in one place, a task with `n` tasks
-- behind it on the ready list gets the processor with the call `n + 1` of schedule.
pub times-Running :
    (n : ℕ) (k : Kernel) (c pid : ℕ) (xs ys : List ℕ)
    → Running k c
    → nodes ready_list k ≡ xs ++ (pid ∷ ys)
    → length ys ≡ n
    → (k' : Kernel) × (times (suc n) k ≡ ok k') × (k'.running_task ≡ some pid) × Running k' pid
unfolding times
times-Running zero k c pid xs [] s e len =
    let (k', run, moved, s') = schedule-next k c pid xs s e in (k', rw run refl, s'.running, s')
times-Running zero k c pid xs (y ∷ ys) s e len = absurd (omega (arith, len))
times-Running (suc n) k c pid xs [] s e len = absurd (omega (arith, len))
times-Running (suc n) k c pid xs (y ∷ ys) s e len =
    let (zs, z, view, size) = snoc-view y ys in
    let split : nodes ready_list k ≡ (xs ++ (pid ∷ zs)) ++ (z ∷ []) =
      e ∙ ap (λ r. xs ++ (pid ∷ r)) view ∙ sym (append_assoc xs (pid ∷ zs) (z ∷ [])) in
    let (k1, run1, moved, s1) = schedule-next k c z (xs ++ (pid ∷ zs)) s split in
    let (k', run, there, s') =
      times-Running n k1 z pid (c ∷ xs) zs s1 moved (omega (arith, len, size)) in
    (k', rw run1 run, there, s')
