-- ===== src/Sys/Kill/Killed.antt =====
-- Which task `kill_task` ends.
use ogos.Prelude.{
  ℕ, zero, suc, ◌+◌, ◌<◌, ◌≡◌, refl, ap, Bool, false, ◌||◌, List, [], ◌∷◌, ◌++◌, arith, ◌==◌,
  if◌then◌else◌, length,
}
use ogos.Prelude.Words.{sub32}
use ogos.Sys.State.{Kernel, ok, kfree}
use ogos.Sys.Chain.{Chain, middle, remove_behind}
use ogos.Sys.Task.Preempt.{next_of, Ready, linked, Chain_ext}
use ogos.Sys.Kill.{kill_search, kill_task}

-- a task of the list has the id
abbrev pub has_id : Kernel → ℕ → List ℕ → Bool
has_id k pid [] = false
has_id k pid (x ∷ xs) = (k.tasks x).id == pid || has_id k pid xs

module _ (pid : ℕ) (k : Kernel) where
  kill_search-absent :
      (f prev p x : ℕ) (xs : List ℕ)
      → Chain (next_of k) p (x ∷ xs)
      → length xs < f
      → has_id k pid xs ≡ false
      → kill_search f pid prev p k ≡ ok prev
  unfolding kill_search
  kill_search-absent zero prev p x xs c h none_left = elim h [ ]
  kill_search-absent (suc f) prev p x [] (e, ne, out, c) h none_left = ground arith
  kill_search-absent (suc f) prev p x (y ∷ ys) (e, ne, out, c) h none_left =
      ground (arith, c.0, c.1, kill_search-absent f prev (next_of k x) y ys c (omega arith))

  kill_search-found :
      (f prev p r : ℕ) (bs ys : List ℕ) (q : ℕ)
      → Chain (next_of k) p (bs ++ q ∷ r ∷ ys)
      → length bs + length ys + 1 < f
      → (k.tasks r).id ≡ pid
      → has_id k pid ys ≡ false
      → kill_search f pid prev p k ≡ ok q
  unfolding kill_search
  kill_search-found zero prev p r bs ys q c h is none_left = elim h [ ]
  kill_search-found (suc f) prev p r [] ys q (e, ne, out, c) h is none_left =
      let rest = kill_search-absent f q (next_of k q) r ys c (omega arith) none_left in
      ground (arith, c.0, c.1, rest)
  kill_search-found (suc f) prev p r (b ∷ []) ys q (e, ne, out, c) h is none_left =
      let rest =
        kill_search-found f (if (k.tasks (next_of k b)).id == pid then b else prev) (next_of k b) r
          [] ys q c (omega arith) is none_left in
      ground (arith, c.0, c.1, rest)
  kill_search-found (suc f) prev p r (b ∷ b' ∷ bs) ys q (e, ne, out, c) h is none_left =
      let rest =
        kill_search-found f (if (k.tasks (next_of k b)).id == pid then b else prev) (next_of k b) r
          (b' ∷ bs) ys q c (omega arith) is none_left in
      ground (arith, c.0, c.1, rest)

-- The last task of the list that has the id and stands behind another one leaves the list and is
-- freed, the number of tasks falls by one, and the result is 0.
pub kill_task-kills :
    (fuel pid q r : ℕ) (bs ys : List ℕ) (k : Kernel)
    → Ready k (bs ++ q ∷ r ∷ ys)
    → length bs + length ys + 1 < fuel
    → (k.tasks r).id ≡ pid
    → has_id k pid ys ≡ false
    → (k' : Kernel) × (kill_task fuel pid k ≡ ok (k', 0))
      × Ready k' (bs ++ q ∷ ys)
      × (k'.freed ≡ r ∷ k.freed)
      × (k'.n_tasks ≡ sub32 k.n_tasks 1)
unfolding kill_task
kill_task-kills fuel pid q r bs ys k c h is none_left =
    let found = kill_search-found pid k fuel 0 k.ready_queue r bs ys q c h is none_left in
    let (nq, to, nr) = middle (next_of k) k.ready_queue q r bs ys c in
    let q_found : (q == 0) ≡ false = ground arith in
    let r_found : (next_of k q == 0) ≡ false = ground arith in
    let k1 : Kernel = linked q (next_of k (next_of k q)) k in
    let shorter = remove_behind k.ready_queue q r bs ys (next_of k) c in
    let k' : Kernel = kfree (next_of k q) (record k1 { n_tasks = sub32 k.n_tasks 1 }) in
    (
      k',
      rw (found, q_found, r_found) refl,
      Chain_ext _ _ _ _ (λ a. ground (arith, to)) shorter,
      ap (λ a. a ∷ k.freed) to,
      refl,
    )

-- Where no task behind the first one has the id, the first one included, nothing changes and the
-- result is 1.
pub kill_task-misses :
    (fuel pid x : ℕ) (xs : List ℕ) (k : Kernel)
    → Ready k (x ∷ xs)
    → length xs < fuel
    → has_id k pid xs ≡ false
    → kill_task fuel pid k ≡ ok (k, 1)
unfolding kill_task
kill_task-misses fuel pid x xs k c h none_left =
    rw (kill_search-absent pid k fuel 0 k.ready_queue x xs c h none_left) refl
