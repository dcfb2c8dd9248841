-- ===== src/Sys/Schedule/Switches.antt =====
-- Turns of the tasks: `switch_task` and `set_current_task` of kernel/src/sys/task.c.
use mathlib.Core.List.{append_assoc}
use ogos.Prelude.{
  ℕ, zero, suc, ◌≡◌, ◌≢◌, refl, ap, sym, subst, ◌∙◌, true, false, List, [], ◌∷◌, ◌++◌, arith, ◌==◌,
  length,
}
use ogos.Sys.State.{Task, Cpu, Kernel, Outcome, ok, ◌>>=◌}
use ogos.Sys.Chain.{first, first-Chain, from_on, not_null, middle}
use ogos.Sys.Task.{switch_task, set_current_task}
use ogos.Sys.Task.Preempt.{next_of, Ready, Chain_ext}
use ogos.Sys.Task.Switched.{switched, successor, switch_task-switched, set_current_task-switched}

-- A switch leaves the list as it is, and the task after the current one runs, or the first one
-- where the current one is the last.
pub switch_turn :
    (k : Kernel) (cur : ℕ) (bs ys : List ℕ)
    → Ready k (bs ++ cur ∷ ys)
    → k.current_task ≡ cur
    → cur ≢ 0
    → (k' : Kernel) × (switch_task k ≡ ok k')
      × Ready k' (bs ++ cur ∷ ys)
      × (k'.current_task ≡ first ys k.ready_queue)
      × (k'.ready_queue ≡ k.ready_queue)
      × ((a : ℕ) → (k'.tasks a).time_to_run ≡ (k.tasks a).time_to_run)
switch_turn k cur bs ys c is nc =
    let c' : Ready k (bs ++ k.current_task ∷ ys) = subst (λ a. Ready k (bs ++ a ∷ ys)) (sym is) c in
    let (is_first, not_zero) =
      first-Chain (next_of k) (next_of k k.current_task) k.ready_queue ys
        (from_on (next_of k) k.ready_queue k.current_task bs ys c')
        (not_null (next_of k) k.ready_queue cur bs ys c) in
    (
      switched (successor k) k,
      switch_task-switched k (ground arith) (subst (λ a. a ≢ 0) (sym is_first) not_zero),
      Chain_ext (next_of k) _ _ _ (λ a. ground arith) c,
      is_first,
      refl,
      λ a. ground arith,
    )

abbrev regs : Task → Cpu
regs t = record { eip = t.eip; esp = t.esp; ebp = t.ebp }

abbrev from_ok : Outcome Kernel → Kernel → Kernel
from_ok (ok k) d = k
from_ok _ d = d

ok-injective : {k k1 : Kernel} → ok k ≡ ok k1 → k ≡ k1
ok-injective {k} e = ap (λ o. from_ok o k) e

-- the tasks that run next, one for each of n switches
abbrev pub turns : ℕ → Kernel → Outcome (Kernel × List ℕ)
turns zero k = ok (k, [])
turns (suc n) k = do k ← switch_task k; r ← turns n k; ok (r.0, k.current_task ∷ r.1)

turns_rest :
    (cur : ℕ) (ys bs : List ℕ) (k : Kernel)
    → Ready k (bs ++ cur ∷ ys)
    → k.current_task ≡ cur
    → cur ≢ 0
    → (k' : Kernel) × (turns (suc (length ys)) k ≡ ok (k', ys ++ k.ready_queue ∷ []))
      × Ready k' (bs ++ cur ∷ ys)
      × (k'.current_task ≡ k.ready_queue)
turns_rest cur [] bs k c is nc =
    let (k', run, c', cur', _, _) = switch_turn k cur bs [] c is nc in
    (k', rw (run, cur') refl, c', cur')
turns_rest cur (y ∷ ys) bs k c is nc =
    let (k', run, c', cur', queue, _) = switch_turn k cur bs (y ∷ ys) c is nc in
    let order : (bs ++ cur ∷ []) ++ y ∷ ys ≡ bs ++ cur ∷ y ∷ ys =
      append_assoc bs (cur ∷ []) (y ∷ ys) in
    let (k2, run2, c2, cur2) =
      turns_rest y ys (bs ++ cur ∷ []) k' (subst (Ready k') (sym order) c') cur'
        (middle (next_of k) k.ready_queue cur y bs ys c).2 in
    (k2, rw (run, run2, cur', queue) refl, subst (Ready k2) order c2, cur2 ∙ queue)

-- With the first task of a list running, as many switches as the list has tasks run each of the
-- others in the order of the list, then the first one again; the list is then as it was.
pub turns-visits :
    (x : ℕ) (xs : List ℕ) (k : Kernel)
    → Ready k (x ∷ xs)
    → k.current_task ≡ x
    → (k' : Kernel) × (turns (length (x ∷ xs)) k ≡ ok (k', xs ++ x ∷ []))
      × Ready k' (x ∷ xs)
      × (k'.current_task ≡ x)
turns-visits x xs k (e, ne, out, c) is =
    let (k', run, c', cur') = turns_rest x xs [] k (e, ne, out, c) is ne in
    (k', run ∙ ap (λ p. ok (k', xs ++ p ∷ [])) e, c', cur' ∙ e)

-- A task that gave way by a switch resumes with the registers that it had, when a switch to it
-- finds its saved state as the first switch left it.
pub set_current_task-resumes :
    (t : ℕ) (k k1 k2 : Kernel)
    → k.current_task ≢ 0
    → t ≢ 0
    → set_current_task t k ≡ ok k1
    → k2.tasks k.current_task ≡ k1.tasks k.current_task
    → k2.current_task ≢ 0
    → k2.current_task ≢ k.current_task
    → (k3 : Kernel) × (set_current_task k.current_task k2 ≡ ok k3)
      × (k3.cpu ≡ k.cpu)
      × (k3.current_task ≡ k.current_task)
set_current_task-resumes t k k1 k2 nc nt run kept nc2 other =
    let cur = k.current_task in
    let saved : k2.tasks cur ≡ (switched t k).tasks cur =
      kept ∙ ap (λ k. k.tasks cur) (ok-injective (sym run ∙ set_current_task-switched t k nc nt)) in
    let same : (cur == cur) ≡ true = ground arith in
    let apart : (k2.current_task == cur) ≡ false = ground arith in
    let loads : (switched cur k2).cpu ≡ regs (k2.tasks cur) = rw apart refl in
    let stored : regs ((switched t k).tasks cur) ≡ k.cpu = rw same refl in
    (switched cur k2, set_current_task-switched cur k2 nc2 nc, loads ∙ ap regs saved ∙ stored, refl)
