-- ===== src/Sys/Kill.antt =====
-- Ending tasks: `kill_task` and `exit_task` of kernel/src/sys/task.c. Loops run on fuel.
pub mod Killed
pub mod Exited
use ogos.Prelude.{ℕ, zero, suc, ◌&&◌, not, ◌==◌, if◌then◌else◌}
use ogos.Prelude.Words.{sub32}
use ogos.Sys.State.{
  Task, Kernel, Outcome, ok, fault, out_of_fuel, ◌>>=◌, load, store, set_next, kfree,
}
use ogos.Sys.Task.{switch_task}

-- The loop of `kill_task`: the last task whose next task has the id, or `prev`.
pub kill_search : ℕ → ℕ → ℕ → ℕ → Kernel → Outcome ℕ
kill_search zero pid prev task_r k = out_of_fuel
kill_search (suc f) pid prev task_r k =
    let next = (k.tasks task_r).next in
    let rest = kill_search f pid (if (k.tasks next).id == pid then task_r else prev) next k in
    if task_r == 0 then fault else if next == 0 then ok prev else rest

-- The result is 1 where no task is found, and 0 otherwise.
pub kill_task : ℕ → ℕ → Kernel → Outcome (Kernel × ℕ)
kill_task fuel pid k = do
  task_prev ← kill_search fuel pid 0 k.ready_queue k
  if task_prev == 0 then ok (k, 1) else (do
    prev ← load task_prev k
    task_r ← load prev.next k
    k ← set_next task_prev task_r.next k
    ok (kfree prev.next (record k { n_tasks = sub32 k.n_tasks 1 }), 0))

-- The loop of `exit_task`: the task before the current one, or 0.
pub exit_search : ℕ → ℕ → Kernel → Outcome ℕ
exit_search zero task_r k = out_of_fuel
exit_search (suc f) task_r k =
    let next = (k.tasks task_r).next in
    let rest = exit_search f next k in
    if task_r == 0
    then fault
    else if next == 0
    then ok 0
    else if next == k.current_task
    then ok task_r
    else rest

-- The current task out of the list.
pub unlink_current : ℕ → Kernel → Outcome Kernel
unlink_current task_prev k = do
  cur ← load k.current_task k
  if k.current_task == k.ready_queue
      then ok (record k { ready_queue = cur.next })
      else set_next task_prev cur.next k

-- 9900 is PRIO_DEAD. The reads of `current_task` after `kfree` find the freed task as it was.
pub exit_task : ℕ → Kernel → Outcome Kernel
exit_task fuel k = do
  cur ← load k.current_task k
  k ← store k.current_task (record cur { priority = 9900; time_to_run = 0; ready_to_run = 0 }) k
  task_prev ← exit_search fuel k.ready_queue k
  if (task_prev == 0) && not (k.current_task == k.ready_queue) then ok k else (do
    k ← unlink_current task_prev k
    cur ← load k.current_task k
    switch_task (
        kfree cur.page_directory (
          kfree cur.original_stack
            (kfree k.current_task (record k { n_tasks = sub32 k.n_tasks 1 })))))
