-- ===== src/Sys/Schedule/Arranged.antt =====
-- `sjf_arrange` sorts the list of tasks.
use std.Path.{fun_ext}
use mathlib.Core.List.{Perm}
use mathlib.Core.List.Perm
use ogos.Prelude.{
  ℕ, zero, suc, ◌+◌, ◌^◌, ◌<◌, ◌≤◌, ◌≡◌, refl, ap, ap₂, sym, subst, ◌∙◌, Bool, false, List, [], ◌∷◌,
  arith, ◌==◌, length, Bool-cases, inl, inr,
}
use ogos.Prelude.Words.{sub32}
use ogos.Sys.State.{Kernel, ok}
use ogos.Sys.Task.Preempt.{next_of, average, Ready}
use ogos.Sys.Schedule.{arrange_pass, arrange_passes, sjf_arrange}
use ogos.Sys.Schedule.Bubble.{
  bubble, swaps, swaps-false, bubble-Perm, Descending, Settled, length-bubble, bubble-Settled,
  Settled-Descending, unsettled,
}
use ogos.Sys.Schedule.Pass.{pass_lem}

-- k' has the tasks xs of k, their priorities falling
abbrev pub Arranged : Kernel → List ℕ → Kernel → Type 0
Arranged k xs k' =
    (ys : List ℕ) × Ready k' ys
    × Perm ys xs
    × Descending (average k) ys
    × ((a : ℕ) → average k' a ≡ average k a)

no_pass :
    (fuel p c : ℕ) (changed : Bool) (k : Kernel)
    → arrange_pass fuel 0 p c changed k ≡ ok (k, changed)
unfolding arrange_pass
no_pass fuel p c changed k = refl

passes_lem :
    (fuel a j : ℕ) (k : Kernel) (xs : List ℕ)
    → Ready k xs
    → length xs ≡ k.n_tasks
    → k.n_tasks < 2 ^ 32
    → k.n_tasks ≤ j + a
    → length xs + 1 < fuel
    → 0 < k.n_tasks
    → Settled (average k) j xs
    → (k' : Kernel) × (arrange_passes fuel a k ≡ ok k') × Arranged k xs k'
unfolding arrange_passes
passes_lem fuel zero j k xs c count small enough h filled s =
    (k, refl, (xs, c, Perm.refl _, Settled-Descending (average k) j xs s (omega arith), λ a. refl))
passes_lem fuel (suc a) j k [] c count small enough h filled s = absurd (omega arith)
passes_lem fuel (suc a) j k (x ∷ []) (e, nx, out, end) count small enough h filled s =
    let found : (k.ready_queue == 0) ≡ false = ground arith in
    let none : sub32 k.n_tasks 1 ≡ 0 = omega arith in
    (
      k,
      rw (found, none, no_pass fuel k.ready_queue (next_of k k.ready_queue) false k) refl,
      (x ∷ [], (e, nx, out, end), Perm.refl _, tt, λ a. refl),
    )
passes_lem fuel (suc a) j k (x ∷ y ∷ ys) (e, nx, out, (to, ny, out_y, rest)) count small enough h
      filled s =
    let chain : Ready k (x ∷ y ∷ ys) = (e, nx, out, (to, ny, out_y, rest)) in
    let found : (k.ready_queue == 0) ≡ false = ground arith in
    let (k1, run, (chain1, count1, same)) =
      pass_lem fuel (sub32 k.n_tasks 1) x y false k [] ys chain (omega arith) (omega arith) in
    let keys : average k1 ≡ average k = fun_ext same in
    let ys1 = bubble (average k) x (y ∷ ys) in
    let run' =
      ap₂ (λ p c. arrange_pass fuel (sub32 k.n_tasks 1) p c false k) e (ap (next_of k) e ∙ to)
      ∙ run in
    elim (Bool-cases (swaps (average k) x (y ∷ ys))) [
      | inl swapped ↦
          let s1 : Settled (average k1) (suc j) ys1 =
            subst (λ f. Settled f (suc j) ys1) (sym keys)
              (bubble-Settled (average k) j x (y ∷ ys) s swapped) in
          let total : length ys1 ≡ suc (length (y ∷ ys)) = length-bubble (average k) x (y ∷ ys) in
          let (k2, run2, (zs, chain2, perm, falls, same2)) =
            passes_lem fuel a (suc j) k1 ys1 chain1 (omega arith) (omega arith) (omega arith)
              (omega arith) (omega arith) s1 in
          (
            k2,
            rw (found, run', swapped) run2,
            (
              zs,
              chain2,
              Perm.trans perm (bubble-Perm (average k) x (y ∷ ys)),
              subst (λ f. Descending f zs) keys falls,
              λ a. same2 a ∙ same a,
            ),
          )
      | inr sorted ↦
          let (unchanged, falls) = swaps-false (average k) x (y ∷ ys) sorted in
          (
            k1,
            rw (found, run', sorted) refl,
            (x ∷ y ∷ ys, subst (Ready k1) unchanged chain1, Perm.refl _, falls, same),
          )
    ]

-- `sjf_arrange` puts the tasks of the list, whose number is the kernel's count, in an order of
-- falling averaged priorities; none is lost and the priorities stay.
pub sjf_arrange-Arranged :
    (fuel : ℕ) (k : Kernel) (xs : List ℕ)
    → Ready k xs
    → length xs ≡ k.n_tasks
    → k.n_tasks < 2 ^ 32
    → 0 < k.n_tasks
    → length xs + 1 < fuel
    → (k' : Kernel) × (sjf_arrange fuel k ≡ ok k') × Arranged k xs k'
unfolding sjf_arrange
sjf_arrange-Arranged fuel k xs c count small filled h =
    passes_lem fuel k.n_tasks 0 k xs c count small (omega arith) h filled (unsettled (average k) xs)
