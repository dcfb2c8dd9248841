-- ===== src/Sys/Schedule/Swap.antt =====
-- `swap_task_locations` on two neighbours of the list.
use mathlib.Core.List.{append_assoc}
use ogos.Prelude.{
  ℕ, ◌+◌, ◌<◌, ◌≡◌, refl, ap, sym, subst, ◌∙◌, true, false, List, [], ◌∷◌, ◌++◌, arith, ◌==◌,
  length, length-append,
}
use ogos.Sys.State.{Kernel, ok}
use ogos.Sys.Chain.{Chain, upd, has-append, frame-upd, middle}
use ogos.Sys.Task.Preempt.{next_of, average, Ready, linked, Chain_ext}
use ogos.Sys.Task.Over.{parent_absent, parent_found, parent_of_task_lem}
use ogos.Sys.Schedule.{swap_dest, swap_src, swap_task_locations}

-- The pointers after the first two addresses of a list change places.
first_two :
    (f : ℕ → ℕ) (s p c : ℕ) (zs : List ℕ)
    → Chain f s (p ∷ c ∷ zs)
    → Chain (upd (upd f c p) p (f c)) c (c ∷ p ∷ zs)
first_two f s p c zs (e, np, out_p, (to, nc, out_c, rest)) =
    let g : ℕ → ℕ = upd (upd f c p) p (f c) in
    let at_c : g c ≡ p = ground arith in
    let at_p : g p ≡ f c = ground arith in
    let rest' : Chain g (f c) zs =
      frame-upd (f c) p (f c) zs (upd f c p) (frame-upd (f c) c p zs f rest out_c) (ground arith) in
    (refl, nc, ground arith, (at_c, np, ground arith, rw at_p rest'))

-- Two neighbours behind q change places.
two_behind :
    (f : ℕ → ℕ) (s q p c : ℕ) (xs zs : List ℕ)
    → Chain f s (xs ++ q ∷ p ∷ c ∷ zs)
    → Chain (upd (upd (upd f q c) c p) p (f c)) s (xs ++ q ∷ c ∷ p ∷ zs)
two_behind f s q p c [] zs (e, nq, out_q, d) =
    let g : ℕ → ℕ = upd (upd (upd f q c) c p) p (f c) in
    let at_q : g q ≡ c = ground (arith, d) in
    let at_c : upd f q c c ≡ f c = ground arith in
    let moved : Chain (upd f q c) (f q) (p ∷ c ∷ zs) = frame-upd (f q) q c (p ∷ c ∷ zs) f d out_q in
    let rest = first_two (upd f q c) (f q) p c zs moved in
    let rest' : Chain g c (c ∷ p ∷ zs) =
      subst (λ v. Chain (upd (upd (upd f q c) c p) p v) c (c ∷ p ∷ zs)) at_c rest in
    (e, nq, ground arith, (at_q, rest'.1, rest'.2, rest'.3))
two_behind f s q p c (x ∷ xs) zs (e, nx, out_x, d) =
    let here : upd (upd (upd f q c) c p) p (f c) x ≡ f x =
      ground (arith, has-append x xs (q ∷ p ∷ c ∷ zs)) in
    (
      e,
      nx,
      ground (arith, has-append x xs (q ∷ p ∷ c ∷ zs), has-append x xs (q ∷ c ∷ p ∷ zs)),
      rw here (two_behind f (f x) q p c xs zs d),
    )

-- the list of k' has the two tasks in the other order, and nothing else of the tasks changes
abbrev pub Swapped : Kernel → ℕ → ℕ → List ℕ → List ℕ → Kernel → Type 0
Swapped k p c bs zs k' =
    Ready k' (bs ++ c ∷ p ∷ zs) × (k'.n_tasks ≡ k.n_tasks) × ((a : ℕ) → average k' a ≡ average k a)

module _ (fuel p c : ℕ) (zs : List ℕ) (k : Kernel) where
  swap_first :
      Ready k (p ∷ c ∷ zs)
      → length zs + 2 < fuel
      → (k' : Kernel) × (swap_task_locations fuel p c k ≡ ok k') × Swapped k p c [] zs k'
  unfolding swap_task_locations swap_dest swap_src
  swap_first (e, np, out, (to, nc, out_c, rest)) h =
      let chain : Ready k (p ∷ c ∷ zs) = (e, np, out, (to, nc, out_c, rest)) in
      let absent = parent_absent p k np fuel k.ready_queue p (c ∷ zs) chain out (omega arith) in
      let (q, _, found, _, _, nq, _) =
        parent_found c k nc fuel k.ready_queue p [] zs chain (omega arith) in
      let k3 = linked p (next_of k c) (linked c p (record k { ready_queue = c })) in
      let p_found : (p == 0) ≡ false = ground arith in
      let c_found : (c == 0) ≡ false = ground arith in
      let q_found : (q == 0) ≡ false = ground arith in
      let is_next : (c == next_of k p) ≡ true = ground arith in
      (
        k3,
        rw
            (
              parent_of_task_lem fuel p k ∙ absent,
              parent_of_task_lem fuel c k ∙ found,
              p_found,
              c_found,
              is_next,
              q_found,
            )
            (refl {a = ok k3}),
        (
          Chain_ext (upd (upd (next_of k) c p) p (next_of k c)) (next_of k3) c (c ∷ p ∷ zs)
              (λ a. ground arith) (first_two (next_of k) k.ready_queue p c zs chain),
          refl,
          λ a. ground arith,
        ),
      )

  swap_later :
      (b : ℕ) (bs : List ℕ)
      → Ready k ((b ∷ bs) ++ p ∷ c ∷ zs)
      → length bs + length zs + 3 < fuel
      → (k' : Kernel) × (swap_task_locations fuel p c k ≡ ok k') × Swapped k p c (b ∷ bs) zs k'
  unfolding swap_task_locations swap_dest swap_src
  swap_later b bs chain h =
      let (np, to, nc) = middle (next_of k) k.ready_queue p c (b ∷ bs) zs chain in
      let (q1, front, found1, whole, short, nq1, _) =
        parent_found p k np fuel k.ready_queue b bs (c ∷ zs) chain (omega arith) in
      let order : ((b ∷ bs) ++ p ∷ []) ++ c ∷ zs ≡ (b ∷ bs) ++ p ∷ c ∷ zs =
        append_assoc (b ∷ bs) (p ∷ []) (c ∷ zs) in
      let (q2, _, found2, _, _, nq2, _) =
        parent_found c k nc fuel k.ready_queue b (bs ++ p ∷ []) zs
          (subst (Ready k) (sym order) chain) (omega (arith, length-append bs (p ∷ []))) in
      let k3 = linked p (next_of k c) (linked c p (linked q1 c k)) in
      let p_found : (p == 0) ≡ false = ground arith in
      let c_found : (c == 0) ≡ false = ground arith in
      let q1_found : (q1 == 0) ≡ false = ground arith in
      let q2_found : (q2 == 0) ≡ false = ground arith in
      let is_next : (c == next_of k p) ≡ true = ground arith in
      let moved =
        two_behind (next_of k) k.ready_queue q1 p c front zs (subst (Ready k) (sym whole) chain) in
      let order' : front ++ q1 ∷ c ∷ p ∷ zs ≡ (b ∷ bs) ++ c ∷ p ∷ zs =
        sym (append_assoc front (q1 ∷ []) (c ∷ p ∷ zs)) ∙ ap (λ l. l ++ c ∷ p ∷ zs) short in
      (
        k3,
        rw
            (
              parent_of_task_lem fuel p k ∙ found1,
              parent_of_task_lem fuel c k ∙ found2,
              p_found,
              c_found,
              q1_found,
              is_next,
              q2_found,
            )
            (refl {a = ok k3}),
        (
          subst (Ready k3) order' (Chain_ext _ _ _ _ (λ a. ground arith) moved),
          refl,
          λ a. ground arith,
        ),
      )

  -- Swapping two neighbours of the list exchanges their places and leaves the others.
  pub swap_task_locations-Swapped :
      (bs : List ℕ)
      → Ready k (bs ++ p ∷ c ∷ zs)
      → length bs + length zs + 2 < fuel
      → (k' : Kernel) × (swap_task_locations fuel p c k ≡ ok k') × Swapped k p c bs zs k'
  swap_task_locations-Swapped [] chain h = swap_first chain (omega arith)
  swap_task_locations-Swapped (b ∷ bs) chain h = swap_later b bs chain (omega arith)
