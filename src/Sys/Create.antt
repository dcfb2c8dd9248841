-- ===== src/Sys/Create.antt =====
-- New tasks: `start_task`, `fork_task` and `initialise_tasking` of kernel/src/sys/task.c. The
-- addresses that `kmalloc` and `clone_directory` return are arguments.
pub mod Stack
pub mod Started
use ogos.Prelude.{ℕ, Bool, true, false, List, [], ◌∷◌, Option, none, some, ◌==◌, ◌+◌, if◌then◌else◌}
use ogos.Prelude.Words.{add32, sub32}
use ogos.Sys.State.{Task, Kernel, Outcome, ok, ◌>>=◌, load, store, put}
use ogos.Sys.Task.{preempt_task}
use ogos.Sys.Schedule.{set_scheduling_algorithm}

-- `*--stack = word`
pub push : ℕ → ℕ × (ℕ → ℕ) → ℕ × (ℕ → ℕ)
push word (sp, memory) = let sp' = sub32 sp 4 in (sp', λ a. if sp' == a then word else memory a)

pub push_all : List ℕ → ℕ × (ℕ → ℕ) → ℕ × (ℕ → ℕ)
push_all [] s = s
push_all (word ∷ words) s = push_all words (push word s)

-- The words of a new stack, in the order they are pushed: EFLAGS, CS, EIP, eight registers and
-- four data segments.
abbrev pub first_frame_of : ℕ → List ℕ
first_frame_of eip =
    0x202 ∷ 0x08 ∷ eip ∷ 0 ∷ 0 ∷ 0 ∷ 0 ∷ 0 ∷ 0 ∷ 0 ∷ 0 ∷ 0x10 ∷ 0x10 ∷ 0x10 ∷ 0x10 ∷ []

-- What a new task is made of.
pub record Plan : Type 0 where
  pub priority : ℕ
  pub burst_time : ℕ
  pub averaged_priority : ℕ
  pub time_to_run : ℕ
  pub eip : ℕ
  pub page_directory : ℕ
  pub thread : ℕ
  pub thread_flags : ℕ

-- The stack pointer and the memory once the first frame stands on the new stack.
pub fill_stack : ℕ → ℕ → Kernel → ℕ × (ℕ → ℕ)
fill_stack block eip k = push_all (first_frame_of eip) (add32 block 0x1000, k.memory)

abbrev pub task_of : ℕ → Plan → Kernel → Task
task_of block plan k = record {
  id = k.next_pid;
  esp = add32 block 0x1000;
  ebp = 0;
  eip = plan.eip;
  priority = plan.priority;
  burst_time = plan.burst_time;
  averaged_priority = plan.averaged_priority;
  time_to_run = plan.time_to_run;
  time_running = 0;
  ready_to_run = 1;
  page_directory = plan.page_directory;
  thread = plan.thread;
  thread_flags = plan.thread_flags;
  stack = (fill_stack block plan.eip k).0;
  original_stack = sub32 (add32 block 0x1000) 0x1000;
  next = 0;
}

-- The task at address `task` with the stack block at address `block`: the part of the three
-- functions between their calls of `kmalloc` and `preempt_task`.
abbrev pub new_task : ℕ → ℕ → Plan → Kernel → Kernel
new_task task block plan k = record k {
  tasks = put k.tasks task (task_of block plan k);
  next_pid = add32 k.next_pid 1;
  n_tasks = add32 k.n_tasks 1;
  memory = (fill_stack block plan.eip k).1;
}

-- The id is what the caller gets when it runs again.
pub start_task : ℕ → ℕ → ℕ → ℕ → ℕ → ℕ → ℕ → Kernel → Outcome (Kernel × ℕ)
start_task fuel task block priority burst_time func arg k = do
  let id = k.next_pid
  k' ← preempt_task fuel task (
      new_task task block
        (record {
          priority = priority;
          burst_time = burst_time;
          averaged_priority = add32 priority burst_time;
          time_to_run = 0;
          eip = func;
          page_directory = 0;
          thread = func;
          thread_flags = arg;
        })
        k)
  ok (k', id)

-- `preempt_task` may have switched to the child, which then runs from address 0, with no result
-- here. Otherwise the parent gives the child its registers, and eip is what `read_eip` returns.
pub fork_task : ℕ → ℕ → ℕ → ℕ → ℕ → ℕ → ℕ → Kernel → Outcome (Kernel × Option ℕ)
fork_task fuel task block directory priority burst_time eip k = do
  let parent_task = k.current_task
  k ← preempt_task fuel task (
      new_task task block
        (record {
          priority = priority;
          burst_time = burst_time;
          averaged_priority = add32 priority burst_time;
          time_to_run = 0;
          eip = 0;
          page_directory = directory;
          thread = 0;
          thread_flags = 0;
        })
        k)
  if k.current_task == parent_task
      then (do
        t ← load task k
        k ← store task (record t { esp = k.cpu.esp; ebp = k.cpu.ebp; eip = eip }) k
        ok (k, some t.id))
      else ok (k, none)

-- All but the move of the stack.
pub initialise_tasking : ℕ → ℕ → Kernel → Kernel
initialise_tasking task block k = set_scheduling_algorithm 1 (
    new_task task block
      (record {
        priority = 100;
        burst_time = 0;
        averaged_priority = 0;
        time_to_run = 10;
        eip = 0;
        page_directory = k.current_directory;
        thread = 0;
        thread_flags = 0;
      })
      (record k { current_task = task; ready_queue = task }))
