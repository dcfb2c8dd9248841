-- ===== src/Sys/Tests.antt =====
-- Examples of the theorems on tasks: two tasks in the list and a third one outside.
use ogos.Prelude.{ℕ, ◌+◌, ◌≡◌, refl, false, [], ◌∷◌, arith, ◌==◌, if◌then◌else◌}
use ogos.Sys.State.{Task, Kernel, ok}
use ogos.Sys.Task.{preempt_task, set_current_task}
use ogos.Sys.Task.Preempt.{Ready, preempt-insert_low}
use ogos.Sys.Task.Switched.{switched, set_current_task-switched}
use ogos.Sys.Kill.{kill_task, exit_task}
use ogos.Sys.Kill.Killed.{kill_task-kills}
use ogos.Sys.Kill.Exited.{exit_task-leaves}
use ogos.Sys.Schedule.{schedule, sjf_arrange}
use ogos.Sys.Schedule.Arranged.{Arranged, sjf_arrange-Arranged}
use ogos.Sys.Schedule.Switches.{turns, turns-visits, set_current_task-resumes}
use ogos.Sys.Schedule.Slices.{schedule-switches}

-- A task by its id, entry point, averaged priority and next task.
abbrev task : ℕ → ℕ → ℕ → ℕ → Task
task id eip averaged next = record {
  id = id;
  esp = 0x7000 + id;
  ebp = 0;
  eip = eip;
  priority = 100;
  burst_time = 0;
  averaged_priority = averaged;
  time_to_run = 0;
  time_running = 0;
  ready_to_run = 1;
  page_directory = 0;
  thread = 0;
  thread_flags = 0;
  stack = 0;
  original_stack = 0x9000;
  next = next;
}

-- 100 is the first task of the list, 200 the second, 300 is in no list; every other address holds
-- an empty task.
abbrev tasks : ℕ → ℕ → Task
tasks averaged a =
    if a == 100
    then task 1 11 150 200
    else if a == 200
    then task 2 22 100 0
    else if a == 300
    then task 3 33 averaged 0
    else task 0 0 0 0

-- The kernel under an algorithm, with a current task and an averaged priority of the task outside.
abbrev kernel : ℕ → ℕ → ℕ → Kernel
kernel algorithm current averaged = record {
  tasks = tasks averaged;
  current_task = current;
  ready_queue = 100;
  n_tasks = 2;
  next_pid = 4;
  algorithm = algorithm;
  rearranges = false;
  current_directory = 5;
  cpu = record { eip = 77; esp = 78; ebp = 79 };
  freed = [];
  memory = λ _. 0;
}

kernel-Ready :
    (algorithm current averaged : ℕ) → Ready (kernel algorithm current averaged) (100 ∷ 200 ∷ [])
kernel-Ready algorithm current averaged = (refl, omega arith, refl, (refl, omega arith, refl, refl))

preempt-insert_low_example :
    (k' : Kernel) × (preempt_task 5 300 (kernel 1 100 120) ≡ ok k')
    × Ready k' (100 ∷ 300 ∷ 200 ∷ [])
    × (k'.current_task ≡ 100)
preempt-insert_low_example =
    preempt-insert_low 5 300 (kernel 1 100 120) refl (omega arith) (omega arith) [] (200 ∷ [])
      (kernel-Ready 1 100 120) (omega arith) refl (omega arith) refl

kill_task-kills_example :
    (k' : Kernel) × (kill_task 5 2 (kernel 1 100 0) ≡ ok (k', 0))
    × Ready k' (100 ∷ [])
    × (k'.freed ≡ 200 ∷ [])
    × (k'.n_tasks ≡ 1)
kill_task-kills_example =
    kill_task-kills 5 2 100 200 [] [] (kernel 1 100 0) (kernel-Ready 1 100 0) (omega arith) refl
      refl

exit_task-leaves_example :
    (k' : Kernel) × (exit_task 5 (kernel 1 200 0) ≡ ok k')
    × Ready k' (100 ∷ [])
    × (k'.current_task ≡ 100)
    × (k'.n_tasks ≡ 1)
    × (k'.freed ≡ 0 ∷ 0x9000 ∷ 200 ∷ [])
exit_task-leaves_example =
    exit_task-leaves 5 100 [] [] (kernel 1 200 0) (kernel-Ready 1 200 0) (omega arith)

turns-visits_example :
    (k' : Kernel) × (turns 2 (kernel 1 100 0) ≡ ok (k', 200 ∷ 100 ∷ []))
    × Ready k' (100 ∷ 200 ∷ [])
    × (k'.current_task ≡ 100)
turns-visits_example = turns-visits 100 (200 ∷ []) (kernel 1 100 0) (kernel-Ready 1 100 0) refl

set_current_task-resumes_example :
    (k3 : Kernel) × (set_current_task 100 (switched 200 (kernel 1 100 0)) ≡ ok k3)
    × (k3.cpu ≡ record { eip = 77; esp = 78; ebp = 79 })
    × (k3.current_task ≡ 100)
set_current_task-resumes_example =
    set_current_task-resumes 200 (kernel 1 100 0) (switched 200 (kernel 1 100 0))
      (switched 200 (kernel 1 100 0)) (omega arith) (omega arith)
      (set_current_task-switched 200 (kernel 1 100 0) (omega arith) (omega arith)) refl
      (omega arith) (omega arith)

schedule-switches_example :
    (k' : Kernel) × (schedule 5 (kernel 1 100 0) ≡ ok k')
    × Ready k' (100 ∷ 200 ∷ [])
    × (k'.current_task ≡ 200)
    × ((k'.tasks 100).time_to_run ≡ 10)
schedule-switches_example =
    schedule-switches 5 100 [] (200 ∷ []) (kernel 1 100 0) (kernel-Ready 1 100 0) refl (omega arith)
      (omega arith) (omega arith) refl

-- The second task of the list has the higher priority.
abbrev rising : Kernel
rising = record (kernel 1 100 0) { tasks = λ a. if a == 200 then task 2 22 900 0 else tasks 0 a }

rising-Ready : Ready rising (100 ∷ 200 ∷ [])
rising-Ready = (refl, omega arith, refl, (refl, omega arith, refl, refl))

sjf_arrange-Arranged_example :
    (k' : Kernel) × (sjf_arrange 5 rising ≡ ok k') × Arranged rising (100 ∷ 200 ∷ []) k'
sjf_arrange-Arranged_example =
    sjf_arrange-Arranged 5 rising (100 ∷ 200 ∷ []) rising-Ready refl (omega arith) (omega arith)
      (omega arith)
