-- ===== src/Sys/State.antt =====
-- The state of the scheduler and its accesses to tasks: kernel/include/kernel/system.h,
-- kernel/src/sys/task.c. A task is reached by its address; an access through the
-- null pointer, address 0, is the outcome `fault`.
use ogos.Prelude.{ℕ, Bool, List, ◌==◌, if◌then◌else◌}

-- `task_t`; pointers are addresses.
pub record Task : Type 0 where
  pub id : ℕ
  pub esp : ℕ
  pub ebp : ℕ
  pub eip : ℕ
  pub priority : ℕ
  pub burst_time : ℕ
  pub averaged_priority : ℕ
  pub time_to_run : ℕ
  pub time_running : ℕ
  pub ready_to_run : ℕ
  pub page_directory : ℕ
  pub thread : ℕ
  pub thread_flags : ℕ
  pub stack : ℕ
  pub original_stack : ℕ
  pub next : ℕ

-- The registers that a switch saves and loads.
pub record Cpu : Type 0 where
  pub eip : ℕ
  pub esp : ℕ
  pub ebp : ℕ

-- The variables of task.c and schedule.c, and `current_directory`. `rearrange_schedule` is null or
-- `sjf_arrange`. `freed` lists the addresses handed to `kfree`, the last one first, and `memory`
-- holds the words of the stacks.
pub record Kernel : Type 0 where
  pub tasks : ℕ → Task
  pub current_task : ℕ
  pub ready_queue : ℕ
  pub n_tasks : ℕ
  pub next_pid : ℕ
  pub algorithm : ℕ
  pub rearranges : Bool
  pub current_directory : ℕ
  pub cpu : Cpu
  pub freed : List ℕ
  pub memory : ℕ → ℕ

pub data Outcome {ℓ} (A : Type ℓ) : Type ℓ where
  ok : A → Outcome A
  fault : Outcome A
  out_of_fuel : Outcome A

infixl 5 ◌>>=◌
abbrev pub ◌>>=◌ {ℓ κ} : {A : Type ℓ} {B : Type κ} → Outcome A → (A → Outcome B) → Outcome B
ok a >>= f = f a
fault >>= f = fault
out_of_fuel >>= f = out_of_fuel

abbrev pub load : ℕ → Kernel → Outcome Task
load p k = if p == 0 then fault else ok (k.tasks p)

abbrev pub put : (ℕ → Task) → ℕ → Task → ℕ → Task
put tasks p t q = if p == q then t else tasks q

abbrev pub store : ℕ → Task → Kernel → Outcome Kernel
store p t k = if p == 0 then fault else ok (record k { tasks = put k.tasks p t })

-- `p->next = q`
abbrev pub set_next : ℕ → ℕ → Kernel → Outcome Kernel
set_next p q k = do t ← load p k; store p (record t { next = q }) k

abbrev pub kfree : ℕ → Kernel → Kernel
kfree p k = record k { freed = List.◌∷◌ p k.freed }
