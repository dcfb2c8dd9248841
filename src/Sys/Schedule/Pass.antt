-- ===== src/Sys/Schedule/Pass.antt =====
-- One pass of `sjf_arrange` over the list.
use mathlib.Core.List.{append_assoc}
use std.Path.{fun_ext}
use mathlib.Core.Bool.{or_assoc}
use ogos.Prelude.{
  ℕ, zero, suc, ◌+◌, ◌<◌, ◌≡◌, refl, ap, ap₂, sym, subst, ◌∙◌, Bool, true, false, ◌||◌, List, [],
  ◌∷◌, ◌++◌, arith, ltb, ◌==◌, length, length-append, Bool-cases, inl, inr,
}
use ogos.Sys.State.{Kernel, ok}
use ogos.Sys.Chain.{middle, from_on}
use ogos.Sys.Task.Preempt.{next_of, average, Ready}
use ogos.Sys.Schedule.{arrange_step, arrange_pass}
use ogos.Sys.Schedule.Bubble.{ahead, carried, bubble, swaps}
use ogos.Sys.Schedule.Swap.{swap_task_locations-Swapped}

module _ (fuel p c : ℕ) (changed : Bool) (k : Kernel) (bs zs : List ℕ) where
  step_lem :
      Ready k (bs ++ p ∷ c ∷ zs)
      → length bs + length zs + 2 < fuel
      → (k' : Kernel) × (arrange_step fuel p c changed k
          ≡ ok (
            k',
            carried (average k) p c,
            next_of k' (carried (average k) p c),
            changed || ltb (average k p) (average k c),
          ))
        × Ready k' (bs ++ ahead (average k) p c ∷ carried (average k) p c ∷ zs)
        × (k'.n_tasks ≡ k.n_tasks)
        × ((a : ℕ) → average k' a ≡ average k a)
  unfolding arrange_step
  step_lem chain h =
      let (np, to, nc) = middle (next_of k) k.ready_queue p c bs zs chain in
      let p_found : (p == 0) ≡ false = ground arith in
      let c_found : (c == 0) ≡ false = ground arith in
      elim (Bool-cases (ltb (average k p) (average k c))) [
        | inl higher ↦
            let (k', run, (chain', count, same)) =
              swap_task_locations-Swapped fuel p c zs k bs chain h in
            let (_, to', _) = middle (next_of k') k'.ready_queue c p bs zs chain' in
            let after : (next_of k' c == 0) ≡ false = ground arith in
            (
              k',
              rw (c_found, p_found, higher, run, after)
                  (ap₂ (λ v b. ok (k', p, next_of k' v, b)) to' (ground arith)),
              rw higher chain',
              count,
              same,
            )
        | inr lower ↦ (
          k,
          rw (c_found, p_found, lower) (ap₂ (λ v b. ok (k, v, next_of k c, b)) to (ground arith)),
          rw lower chain,
          refl,
          λ a. refl,
        )
      ]

-- what a pass over the list with p at its place leaves
abbrev pub Passed : Kernel → List ℕ → ℕ → List ℕ → Kernel → Type 0
Passed k bs p zs k' =
    Ready k' (bs ++ bubble (average k) p zs)
    × (k'.n_tasks ≡ k.n_tasks)
    × ((a : ℕ) → average k' a ≡ average k a)

pub pass_lem :
    (fuel i p c : ℕ) (changed : Bool) (k : Kernel) (bs zs : List ℕ)
    → Ready k (bs ++ p ∷ c ∷ zs)
    → length bs + length zs + 2 < fuel
    → length zs < i
    → (k' : Kernel) × (arrange_pass fuel i p c changed k
        ≡ ok (k', changed || swaps (average k) p (c ∷ zs)))
      × Passed k bs p (c ∷ zs) k'
unfolding arrange_pass
pass_lem fuel zero p c changed k bs zs chain h few = elim few [ ]
pass_lem fuel (suc i) p c changed k bs [] chain h few =
    let (k1, run, chain1, count, same) = step_lem fuel p c changed k bs [] chain h in
    let key = average k in
    let last : next_of k1 (carried key p c) ≡ 0 =
      from_on (next_of k1) k1.ready_queue (carried key p c) (bs ++ ahead key p c ∷ []) [] (
        subst (Ready k1) (sym (append_assoc bs (ahead key p c ∷ []) (carried key p c ∷ [])))
          chain1) in
    let done : (next_of k1 (carried key p c) == 0) ≡ true = ground arith in
    (k1, rw (run, done) (ap (λ b. ok (k1, b)) (ground arith)), (chain1, count, same))
pass_lem fuel (suc i) p c changed k bs (z ∷ zs) chain h few =
    let (k1, run, chain1, count, same) = step_lem fuel p c changed k bs (z ∷ zs) chain h in
    let key = average k in
    let front = ahead key p c in
    let back = carried key p c in
    let order : (bs ++ front ∷ []) ++ back ∷ z ∷ zs ≡ bs ++ front ∷ back ∷ z ∷ zs =
      append_assoc bs (front ∷ []) (back ∷ z ∷ zs) in
    let (_, to, nz) =
      middle (next_of k1) k1.ready_queue back z (bs ++ front ∷ []) zs
        (subst (Ready k1) (sym order) chain1) in
    let goes_on : (z == 0) ≡ false = ground arith in
    let room : length (bs ++ front ∷ []) + length zs + 2 < fuel =
      omega (arith, length-append bs (front ∷ [])) in
    let (k2, run2, (chain2, count2, same2)) =
      pass_lem fuel i back z (changed || ltb (key p) (key c)) k1 (bs ++ front ∷ []) zs
        (subst (Ready k1) (sym order) chain1) room (omega arith) in
    let keys : average k1 ≡ key = fun_ext same in
    let order2 : (bs ++ front ∷ []) ++ bubble (average k1) back (z ∷ zs)
        ≡ bs ++ front ∷ bubble key back (z ∷ zs) =
      append_assoc bs (front ∷ []) (bubble (average k1) back (z ∷ zs))
      ∙ ap (λ f. bs ++ front ∷ bubble f back (z ∷ zs)) keys in
    let flags : ((changed || ltb (key p) (key c)) || swaps (average k1) back (z ∷ zs))
        ≡ (changed || swaps key p (c ∷ z ∷ zs)) =
      ap (λ f. (changed || ltb (key p) (key c)) || swaps f back (z ∷ zs)) keys
      ∙ or_assoc changed (ltb (key p) (key c)) (swaps key back (z ∷ zs)) in
    (
      k2,
      rw (run, to, goes_on, run2) (ap (λ b. ok (k2, b)) flags),
      (subst (Ready k2) order2 chain2, count2 ∙ count, λ a. same2 a ∙ same a),
    )
