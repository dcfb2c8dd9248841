-- ===== src/Sys/Schedule.antt =====
-- The scheduler: `schedule`, `set_scheduling_algorithm`, `swap_task_locations` and `sjf_arrange` of
-- kernel/src/sys/schedule.c.
pub mod Switches
pub mod Slices
pub mod Swap
pub mod Bubble
pub mod Pass
pub mod Arranged
use ogos.Prelude.{ℕ, zero, suc, Bool, true, false, ◌&&◌, ◌==◌, ltb, ◌-◌, if◌then◌else◌}
use ogos.Prelude.Words.{sub32}
use ogos.Sys.State.{Task, Kernel, Outcome, ok, fault, ◌>>=◌, load, store, set_next}
use ogos.Sys.Task.{switch_task, parent_of_task}

pub set_scheduling_algorithm : ℕ → Kernel → Kernel
set_scheduling_algorithm algorithm_number k = record k {
  algorithm = algorithm_number;
  rearranges = algorithm_number == 1;
}

-- Where dest stands behind a parent the parent leads to src, otherwise the queue does.
pub swap_dest : ℕ → ℕ → ℕ → ℕ → Kernel → Outcome Kernel
swap_dest parent_dest dest src dest_next k = do
  k ← (if parent_dest == 0 then ok (record k { ready_queue = src }) else set_next parent_dest src k)
  set_next src (if src == dest_next then dest else dest_next) k

pub swap_src : ℕ → ℕ → ℕ → Kernel → Outcome Kernel
swap_src parent_src dest src_next k =
    if parent_src == 0
    then set_next dest src_next (record k { ready_queue = dest })
    else set_next dest src_next k

pub swap_task_locations : ℕ → ℕ → ℕ → Kernel → Outcome Kernel
swap_task_locations fuel dest src k = do
  parent_dest ← parent_of_task fuel dest k
  parent_src ← parent_of_task fuel src k
  s ← load src k
  d ← load dest k
  k ← swap_dest parent_dest dest src d.next k
  swap_src parent_src dest s.next k

-- One step of the inner loop: the new `prev_task`, `cur_task` and `has_changed`.
pub arrange_step : ℕ → ℕ → ℕ → Bool → Kernel → Outcome (Kernel × ℕ × ℕ × Bool)
arrange_step fuel prev cur changed k = do
  c ← load cur k
  p ← load prev k
  if ltb p.averaged_priority c.averaged_priority
      then (do
        k ← swap_task_locations fuel prev cur k
        c ← load cur k
        if c.next == 0
            then ok (k, prev, 0, true)
            else (do n ← load c.next k; ok (k, prev, n.next, true)))
      else ok (k, p.next, c.next, changed)

-- The inner loop, with the passes that are left.
pub arrange_pass : ℕ → ℕ → ℕ → ℕ → Bool → Kernel → Outcome (Kernel × Bool)
arrange_pass fuel zero prev cur changed k = ok (k, changed)
arrange_pass fuel (suc i) prev cur changed k = arrange_step fuel prev cur changed k >>= λ r.
    let rest = arrange_pass fuel i r.1 r.2 r.3 r.0 in if r.2 == 0 then ok (r.0, r.3) else rest

-- The outer loop, with the passes that are left.
pub arrange_passes : ℕ → ℕ → Kernel → Outcome Kernel
arrange_passes fuel zero k = ok k
arrange_passes fuel (suc a) k = load k.ready_queue k >>= λ head.
    arrange_pass fuel (sub32 k.n_tasks 1) k.ready_queue head.next false k >>= λ r.
    let rest = arrange_passes fuel a r.0 in if r.1 then rest else ok r.0

pub sjf_arrange : ℕ → Kernel → Outcome Kernel
sjf_arrange fuel k = arrange_passes fuel k.n_tasks k

-- The time slice of a priority: PRIO_DEAD, PRIO_IDLE, PRIO_LOW, PRIO_MED, PRIO_HIGH, or another one.
pub slice : ℕ → ℕ
slice priority =
    if priority == 9900
    then 0
    else if priority == 0
    then 1
    else if priority == 100
    then 10
    else if priority == 200
    then 20
    else if priority == 300
    then 50
    else 10

pub schedule : ℕ → Kernel → Outcome Kernel
schedule fuel k = do
  cur ← load k.current_task k
  if (cur.id == 0) then ok k else if cur.ready_to_run == 0 then ok k else (do
    k ←
        store k.current_task
          (record cur {
            time_to_run = if cur.time_to_run == 0 then slice cur.priority else cur.time_to_run;
          })
          k
    k ← (if (cur.next == 0) && k.rearranges then sjf_arrange fuel k else ok k)
    switch_task k)
