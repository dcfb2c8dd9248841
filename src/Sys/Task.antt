-- ===== src/Sys/Task.antt =====
-- Switching, preempting and ending tasks: kernel/src/sys/task.c, and `parent_of_task`,
-- `preempt_task` of kernel/src/sys/schedule.c. Loops run on fuel.
pub mod Preempt
pub mod Switched
pub mod Over
use ogos.Prelude.{ℕ, zero, suc, ◌+◌, ◌<◌, Bool, true, false, not, ◌&&◌, ltb, ◌==◌, if◌then◌else◌}
use ogos.Prelude.Words.{add32, sub32}
use ogos.Sys.State.{
  Task, Cpu, Kernel, Outcome, ok, fault, out_of_fuel, ◌>>=◌, load, store, set_next, kfree,
}

-- The switch itself: the registers go into the current task, `to` becomes the current task and its
-- registers are loaded, with its page directory if it has one.
pub switch_to : ℕ → Kernel → Outcome Kernel
switch_to to k = do
  cur ← load k.current_task k
  k ← store k.current_task (record cur { eip = k.cpu.eip; esp = k.cpu.esp; ebp = k.cpu.ebp }) k
  t ← load to k
  ok (record k {
    current_task = to;
    current_directory = if t.page_directory == 0 then k.current_directory else t.page_directory;
    cpu = record { eip = t.eip; esp = t.esp; ebp = t.ebp };
  })

pub set_current_task : ℕ → Kernel → Outcome Kernel
set_current_task to k =
    if k.current_task == 0 then ok k else if to == 0 then ok k else switch_to to k

-- The next task of the list, or the first one behind the last.
pub switch_task : Kernel → Outcome Kernel
switch_task k = if k.current_task == 0 then ok k else do
  cur ← load k.current_task k
  switch_to (if cur.next == 0 then k.ready_queue else cur.next) k

pub getpid : Kernel → Outcome ℕ
getpid k = do cur ← load k.current_task k; ok cur.id

-- `while (tmp_task != 0) if (tmp_task->next == src) return tmp_task; else tmp_task = tmp_task->next;`
pub parent_from : ℕ → ℕ → ℕ → Kernel → Outcome ℕ
parent_from zero src tmp k = out_of_fuel
parent_from (suc f) src tmp k =
    let next = (k.tasks tmp).next in
    let rest = parent_from f src next k in
    if tmp == 0 then ok 0 else if next == src then ok tmp else rest

pub parent_of_task : ℕ → ℕ → Kernel → Outcome ℕ
parent_of_task fuel src k = parent_from fuel src k.ready_queue k

-- `while (tmp_task->next != 0) tmp_task = tmp_task->next;`
pub last_task : ℕ → ℕ → Kernel → Outcome ℕ
last_task zero tmp k = out_of_fuel
last_task (suc f) tmp k =
    let next = (k.tasks tmp).next in
    let rest = last_task f next k in if tmp == 0 then fault else if next == 0 then ok tmp else rest

-- How the search for the place of a task of low priority ends.
pub data Place : Type 0 where
  stop : Place
  at_end : ℕ → Place
  behind : ℕ → Place

-- The `for` loop. Its condition reads the priority of the next task before the body's two tests
-- of null pointers are made.
pub find_place : ℕ → ℕ → ℕ → Kernel → Outcome Place
find_place zero priority tmp k = out_of_fuel
find_place (suc f) priority tmp k =
    let next = (k.tasks tmp).next in
    let rest = find_place f priority next k in
    if (tmp == 0)
    then fault
    else if next == 0
    then fault
    else if ltb priority (k.tasks next).averaged_priority
    then (if tmp == 0 then ok stop else if next == 0 then ok (at_end tmp) else rest)
    else ok (behind tmp)

pub insert_at : Place → ℕ → Kernel → Outcome Kernel
insert_at stop task k = ok k
insert_at (at_end tmp) task k = do k ← set_next tmp task k; set_next task 0 k
insert_at (behind tmp) task k = do t ← load tmp k; k ← set_next task t.next k; set_next tmp task k

-- The current task gives way to a task of higher priority, which takes its place in the list.
pub take_over : ℕ → ℕ → Kernel → Outcome Kernel
take_over fuel task k = do
  cur_parent ← parent_of_task fuel k.current_task k
  if k.current_task == k.ready_queue
      then (do
        k ← set_next task k.current_task k
        set_current_task task (record k { ready_queue = task }))
      else if cur_parent == 0
      then ok k
      else (do
        k ← set_next cur_parent task k
        k ← set_next task k.current_task k
        set_current_task task k)

pub preempt_task : ℕ → ℕ → Kernel → Outcome Kernel
preempt_task fuel task k =
    if k.algorithm == 0
    then (do tmp ← last_task fuel k.ready_queue k; set_next tmp task k)
    else if k.algorithm == 1
    then (do
      new ← load task k
      cur ← load k.current_task k
      if ltb cur.averaged_priority new.averaged_priority then take_over fuel task k else (do
        place ← find_place fuel new.averaged_priority k.current_task k
        insert_at place task k))
    else ok k
