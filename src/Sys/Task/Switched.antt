-- ===== src/Sys/Task/Switched.antt =====
-- The state after a switch of tasks.
use ogos.Prelude.{ℕ, ◌≡◌, ◌≢◌, false, arith, ◌==◌, if◌then◌else◌}
use ogos.Sys.State.{Kernel, ok, put}
use ogos.Sys.Task.{set_current_task, switch_to, switch_task}
use ogos.Sys.Task.Preempt.{next_of}

-- The kernel after a switch to t.
abbrev pub switched : ℕ → Kernel → Kernel
switched t k =
    let cur = record (k.tasks k.current_task) {
      eip = k.cpu.eip;
      esp = k.cpu.esp;
      ebp = k.cpu.ebp;
    } in
    let tasks = put k.tasks k.current_task cur in
    record k {
      tasks = tasks;
      current_task = t;
      current_directory =
          if (tasks t).page_directory == 0 then k.current_directory else (tasks t).page_directory;
      cpu = record { eip = (tasks t).eip; esp = (tasks t).esp; ebp = (tasks t).ebp };
    }

pub set_current_task-switched :
    (t : ℕ) (k : Kernel) → k.current_task ≢ 0 → t ≢ 0 → set_current_task t k ≡ ok (switched t k)
unfolding set_current_task switch_to
set_current_task-switched t k nc nt =
    let c : (k.current_task == 0) ≡ false = ground arith in
    let t' : (t == 0) ≡ false = ground arith in rw (c, t')

pub next-switched : (t : ℕ) (k : Kernel) (a : ℕ) → next_of (switched t k) a ≡ next_of k a
next-switched t k a = ground arith

-- The task that `switch_task` switches to.
abbrev pub successor : Kernel → ℕ
successor k = if next_of k k.current_task == 0 then k.ready_queue else next_of k k.current_task

pub switch_task-switched :
    (k : Kernel)
    → k.current_task ≢ 0
    → successor k ≢ 0
    → switch_task k ≡ ok (switched (successor k) k)
unfolding switch_task switch_to
switch_task-switched k nc nt =
    let c : (k.current_task == 0) ≡ false = ground arith in
    let t' : (successor k == 0) ≡ false = ground arith in rw (c, t')
