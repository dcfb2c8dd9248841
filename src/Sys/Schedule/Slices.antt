-- ===== src/Sys/Schedule/Slices.antt =====
-- What `schedule` does before it switches.
use ogos.Prelude.{
  ℕ, ◌≡◌, ◌≢◌, refl, ap, sym, subst, ◌∙◌, true, false, ◌&&◌, ◌||◌, List, [], ◌∷◌, ◌++◌, arith, ◌==◌,
  if◌then◌else◌,
}
use ogos.Sys.State.{Task, Kernel, ok, put}
use ogos.Sys.Chain.{first}
use ogos.Sys.Task.Preempt.{next_of, Ready, Chain_ext}
use ogos.Sys.Schedule.{schedule, slice}
use ogos.Sys.Schedule.Switches.{switch_turn}

-- Nothing happens while the current task is process 0 or is not ready to run.
pub schedule-idles :
    (fuel : ℕ) (k : Kernel)
    → k.current_task ≢ 0
    → (((k.tasks k.current_task).id == 0) || ((k.tasks k.current_task).ready_to_run == 0)) ≡ true
    → schedule fuel k ≡ ok k
unfolding schedule
schedule-idles fuel k nc idle = ground arith

-- the value that a table gives a key, or d
abbrev pub value_at : List (ℕ × ℕ) → ℕ → ℕ → ℕ
value_at [] d key = d
value_at (row ∷ rows) d key = if key == row.0 then row.1 else value_at rows d key

-- the milliseconds of the priorities dead, idle, low, medium and high
abbrev pub quanta : List (ℕ × ℕ)
quanta = (9900, 0) ∷ (0, 1) ∷ (100, 10) ∷ (200, 20) ∷ (300, 50) ∷ []

-- the time a task has when it gives way
abbrev pub time_left : Task → ℕ
time_left t = if t.time_to_run == 0 then value_at quanta 10 t.priority else t.time_to_run

-- Where another task follows the current one, or no arrangement is set, a ready current task gets
-- the time slice of its priority if it has used its time up, and the next task of the list runs.
pub schedule-switches :
    (fuel cur : ℕ) (bs ys : List ℕ) (k : Kernel)
    → Ready k (bs ++ cur ∷ ys)
    → k.current_task ≡ cur
    → cur ≢ 0
    → (k.tasks cur).id ≢ 0
    → (k.tasks cur).ready_to_run ≢ 0
    → (((k.tasks cur).next == 0) && k.rearranges) ≡ false
    → (k' : Kernel) × (schedule fuel k ≡ ok k')
      × Ready k' (bs ++ cur ∷ ys)
      × (k'.current_task ≡ first ys k.ready_queue)
      × ((k'.tasks cur).time_to_run ≡ time_left (k.tasks cur))
unfolding schedule slice
schedule-switches fuel cur bs ys k c is nc id ready stays =
    let t = k.tasks k.current_task in
    let k1 : Kernel = record k {
      tasks = put k.tasks k.current_task (record t { time_to_run = time_left t });
    } in
    let (k', run, c', cur', _, times) =
      switch_turn k1 cur bs ys (Chain_ext (next_of k) _ _ _ (λ a. ground arith) c) is nc in
    let found : (k.current_task == 0) ≡ false = ground arith in
    let has_id : (t.id == 0) ≡ false =
      subst (λ a. ((k.tasks a).id == 0) ≡ false) (sym is) (ground arith) in
    let is_ready : (t.ready_to_run == 0) ≡ false =
      subst (λ a. ((k.tasks a).ready_to_run == 0) ≡ false) (sym is) (ground arith) in
    let stays' : ((t.next == 0) && k.rearranges) ≡ false =
      subst (λ a. (((k.tasks a).next == 0) && k.rearranges) ≡ false) (sym is) stays in
    let same : (k.current_task == cur) ≡ true = ground arith in
    let slice_kept : (k1.tasks cur).time_to_run ≡ time_left t = rw same refl in
    (
      k',
      rw (found, has_id, is_ready, stays') run,
      c',
      cur',
      times cur ∙ slice_kept ∙ ap (λ a. time_left (k.tasks a)) is,
    )
