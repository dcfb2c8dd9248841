-- ===== src/Sys/Kill/Exited.antt =====
-- How the list of tasks and the running task change when a task ends itself.
use ogos.Prelude.{
  ℕ, zero, suc, ◌<◌, ◌≡◌, ◌≢◌, refl, ◌∙◌, true, false, List, [], ◌∷◌, ◌++◌, arith, ◌==◌, length,
}
use ogos.Prelude.Words.{sub32}
use ogos.Sys.State.{Kernel, ok, put}
use ogos.Sys.Chain.{
  has, Chain, upd, has-append, remove_behind, middle, apart, first, first-Chain, from_on, not_null,
}
use ogos.Sys.Task.{switch_task}
use ogos.Sys.Task.Preempt.{next_of, Ready, linked, Chain_ext}
use ogos.Sys.Task.Switched.{switched, successor, switch_task-switched}
use ogos.Sys.Kill.{exit_search, unlink_current, exit_task}

exit_search-absent :
    (f p x : ℕ) (xs : List ℕ) (k : Kernel)
    → Chain (next_of k) p (x ∷ xs)
    → length xs < f
    → has k.current_task xs ≡ false
    → exit_search f p k ≡ ok 0
unfolding exit_search
exit_search-absent zero p x xs k c h out = elim h [ ]
exit_search-absent (suc f) p x [] k (e, ne, _, c) h out = ground arith
exit_search-absent (suc f) p x (y ∷ ys) k (e, ne, _, c) h out =
    ground (arith, c.0, c.1, exit_search-absent f (next_of k x) y ys k c (omega arith))

exit_search-found :
    (f p q : ℕ) (bs ys : List ℕ) (k : Kernel)
    → Chain (next_of k) p (bs ++ q ∷ k.current_task ∷ ys)
    → length bs < f
    → exit_search f p k ≡ ok q
unfolding exit_search
exit_search-found zero p q bs ys k c h = elim h [ ]
exit_search-found (suc f) p q [] ys k (e, ne, out, c) h = ground (arith, c.0, c.1)
exit_search-found (suc f) p q (b ∷ []) ys k (e, ne, out, c) h =
    ground (arith, c.0, c.1, c.2, exit_search-found f (next_of k b) q [] ys k c (omega arith))
exit_search-found (suc f) p q (b ∷ b' ∷ bs) ys k (e, ne, out, c) h =
    let other : b' ≢ k.current_task =
      ground (arith, c.2, has-append b' bs (q ∷ k.current_task ∷ ys)) in
    ground (arith, c.0, c.1, exit_search-found f (next_of k b) q (b' ∷ bs) ys k c (omega arith))

-- The kernel with its current task marked dead.
abbrev dead : Kernel → Kernel
dead k = record k {
  tasks =
      put k.tasks k.current_task
        (record (k.tasks k.current_task) { priority = 9900; time_to_run = 0; ready_to_run = 0 });
}

-- The kernel once the memory of the current task is given back.
abbrev released : Kernel → Kernel
released k =
    let cur = k.tasks k.current_task in
    record k {
      n_tasks = sub32 k.n_tasks 1;
      freed = cur.page_directory ∷ cur.original_stack ∷ k.current_task ∷ k.freed;
    }

exit_behind-run :
    (fuel q : ℕ) (bs ys : List ℕ) (k : Kernel)
    → Ready k (bs ++ q ∷ k.current_task ∷ ys)
    → length bs < fuel
    → exit_task fuel k ≡ switch_task (released (linked q (next_of k k.current_task) (dead k)))
unfolding exit_task unlink_current
exit_behind-run fuel q bs ys k c h =
    let cur = k.current_task in
    let (nq, to, nc) = middle (next_of k) k.ready_queue q cur bs ys c in
    let c' : Ready (dead k) (bs ++ q ∷ cur ∷ ys) =
      Chain_ext (next_of k) _ _ _ (λ a. ground arith) c in
    let found = exit_search-found fuel k.ready_queue q bs ys (dead k) c' h in
    let cur_found : (cur == 0) ≡ false = ground arith in
    let q_found : (q == 0) ≡ false = ground arith in
    let cur_same : (cur == cur) ≡ true = ground arith in
    let not_q : (q == cur) ≡ false =
      ground (arith, apart (next_of k) k.ready_queue q cur bs ys c) in
    let not_head : (cur == k.ready_queue) ≡ false =
      ground (arith, apart (next_of k) k.ready_queue q cur bs ys c) in
    rw (cur_found, found, q_found, not_head, cur_found, cur_same, not_q, cur_found) refl

-- A current task that stands behind another one leaves the list, its three blocks are freed, the
-- number of tasks falls by one, and the task after it runs, or the first one where it was the last.
pub exit_task-leaves :
    (fuel q : ℕ) (bs ys : List ℕ) (k : Kernel)
    → Ready k (bs ++ q ∷ k.current_task ∷ ys)
    → length bs < fuel
    → (k' : Kernel) × (exit_task fuel k ≡ ok k')
      × Ready k' (bs ++ q ∷ ys)
      × (k'.current_task ≡ first ys k.ready_queue)
      × (k'.n_tasks ≡ sub32 k.n_tasks 1)
      × (k'.freed
          ≡ (k.tasks k.current_task).page_directory
            ∷ (k.tasks k.current_task).original_stack
            ∷ k.current_task
            ∷ k.freed)
exit_task-leaves fuel q bs ys k c h =
    let cur = k.current_task in
    let (nq, to, nc) = middle (next_of k) k.ready_queue q cur bs ys c in
    let (q_cur, _) = apart (next_of k) k.ready_queue q cur bs ys c in
    let rest : Chain (next_of k) (next_of k cur) ys =
      (from_on (next_of k) k.ready_queue q bs (cur ∷ ys) c).3 in
    let (is_first, not_zero) =
      first-Chain (next_of k) (next_of k cur) k.ready_queue ys rest
        (not_null (next_of k) k.ready_queue q bs (cur ∷ ys) c) in
    let k1 : Kernel = released (linked q (next_of k cur) (dead k)) in
    let same : next_of k1 cur ≡ next_of k cur = ground arith in
    let goes : successor k1 ≡ first ys k.ready_queue = rw same is_first in
    let shorter = remove_behind k.ready_queue q cur bs ys (next_of k) c in
    let cur_same : (cur == cur) ≡ true = ground arith in
    let not_q : (q == cur) ≡ false = ground arith in
    (
      switched (successor k1) k1,
      exit_behind-run fuel q bs ys k c h ∙ switch_task-switched k1 nc (ground arith),
      Chain_ext (upd (next_of k) q (next_of k cur)) _ _ _ (λ a. ground arith) shorter,
      goes,
      refl,
      rw (not_q, cur_same) refl,
    )
