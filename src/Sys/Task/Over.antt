-- ===== src/Sys/Task/Over.antt =====
-- Under shortest job first a task of higher priority takes over at once.
use ogos.Prelude.{
  ℕ, zero, suc, ◌+◌, ◌<◌, ◌≡◌, ◌≢◌, refl, ap, false, List, [], ◌∷◌, ◌++◌, arith, length,
}
use ogos.Sys.State.{Kernel, ok}
use ogos.Sys.Chain.{has, Chain, has-append}
use ogos.Sys.Task.{parent_from, parent_of_task, preempt_task}
use ogos.Sys.Task.Preempt.{next_of, Ready}

pub parent_of_task_lem :
    (fuel src : ℕ) (k : Kernel) → parent_of_task fuel src k ≡ parent_from fuel src k.ready_queue k
unfolding parent_of_task
parent_of_task_lem fuel src k = refl

module _ (src : ℕ) (k : Kernel) (ns : src ≢ 0) where
  pub parent_absent :
      (f p x : ℕ) (xs : List ℕ)
      → Chain (next_of k) p (x ∷ xs)
      → has src xs ≡ false
      → length xs + 1 < f
      → parent_from f src p k ≡ ok 0
  unfolding parent_from
  parent_absent zero p x xs c out h = elim h [ ]
  parent_absent (suc zero) p x xs c out h = absurd (omega arith)
  parent_absent (suc (suc f)) p x [] (e, ne, _, c) out h = ground arith
  parent_absent (suc (suc f)) p x (y ∷ ys) (e, ne, _, c) out h =
      ground (arith, c.0, parent_absent (suc f) (next_of k x) y ys c)

  pub parent_found :
      (f p b : ℕ) (bs zs : List ℕ)
      → Chain (next_of k) p ((b ∷ bs) ++ src ∷ zs)
      → length bs < f
      → (q : ℕ) × (front : List ℕ) × (parent_from f src p k ≡ ok q)
        × (front ++ q ∷ src ∷ zs ≡ (b ∷ bs) ++ src ∷ zs)
        × (front ++ q ∷ [] ≡ b ∷ bs)
        × (q ≢ 0)
        × (next_of k q ≡ src)
  unfolding parent_from
  parent_found zero p b bs zs c h = elim h [ ]
  parent_found (suc f) p b [] zs (e, ne, out, c) h =
      (b, [], ground (arith, c.0), refl, refl, ne, c.0)
  parent_found (suc f) p b (y ∷ ys) zs (e, ne, out, c) h =
      let (q, front, found, whole, short, nq, to) =
        parent_found f (next_of k b) y ys zs c (omega arith) in
      let other : y ≢ src = ground (arith, c.2, has-append y ys (src ∷ zs)) in
      (
        q,
        b ∷ front,
        ground (arith, c.0, found),
        ap (λ l. b ∷ l) whole,
        ap (λ l. b ∷ l) short,
        nq,
        to,
      )

module _ (fuel t : ℕ) (k : Kernel) (alg : k.algorithm ≡ 1) (nt : t ≢ 0)
    (nc : k.current_task ≢ 0) where
  -- the outcome: t stands before the task that was current, whose registers are saved, and runs
  abbrev pub Preempted : List ℕ → List ℕ → Kernel → Type 0
  Preempted bs zs k' =
      (preempt_task fuel t k ≡ ok k')
      × Ready k' (bs ++ t ∷ k.current_task ∷ zs)
      × (k'.current_task ≡ t)
      × (k'.cpu ≡ record { eip = (k.tasks t).eip; esp = (k.tasks t).esp; ebp = (k.tasks t).ebp })
      × ((k'.tasks k.current_task).eip ≡ k.cpu.eip)
