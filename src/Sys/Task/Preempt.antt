-- ===== src/Sys/Task/Preempt.antt =====
-- Where `preempt_task` puts a task in the list of ready tasks.
use ogos.Prelude.{
  ℕ, zero, suc, ◌<◌, ◌≤◌, ◌≡◌, ◌≢◌, refl, ap, sym, subst, ◌∙◌, inl, inr, Bool, true, false, List,
  [], ◌∷◌, ◌++◌, arith, ltb, ◌==◌, if◌then◌else◌, Bool-cases, length,
}
use mathlib.Core.List.{append_assoc}
use ogos.Sys.State.{Kernel, ok, fault, ◌>>=◌, put, set_next}
use ogos.Sys.Chain.{has, Chain, upd, has-append, frame, insert_behind}
use ogos.Sys.Task.{behind, last_task, find_place, insert_at, take_over, preempt_task}

abbrev pub next_of : Kernel → ℕ → ℕ
next_of k a = (k.tasks a).next

abbrev pub average : Kernel → ℕ → ℕ
average k a = (k.tasks a).averaged_priority

-- The ready tasks, in the order of the list.
abbrev pub Ready : Kernel → List ℕ → Type 0
Ready k xs = Chain (next_of k) k.ready_queue xs

-- What `p->next = q` leaves.
abbrev pub linked : ℕ → ℕ → Kernel → Kernel
linked p q k = record k { tasks = put k.tasks p (record (k.tasks p) { next = q }) }

set_next-linked : (p q : ℕ) (k : Kernel) → p ≢ 0 → set_next p q k ≡ ok (linked p q k)
set_next-linked p q k h = let e : (p == 0) ≡ false = ground arith in rw e

next-linked : (p q : ℕ) (k : Kernel) (a : ℕ) → next_of (linked p q k) a ≡ upd (next_of k) p q a
next-linked p q k a = ground arith

-- Two functions that agree everywhere lead along the same lists.
pub Chain_ext :
    (f g : ℕ → ℕ) (p : ℕ) (xs : List ℕ) → ((a : ℕ) → g a ≡ f a) → Chain f p xs → Chain g p xs
Chain_ext f g p xs same c = frame p xs f g c (λ a h. same a)

last_task_lem :
    (f p x : ℕ) (xs : List ℕ) (k : Kernel)
    → Chain (next_of k) p (x ∷ xs)
    → length xs < f
    → (q : ℕ) × (front : List ℕ) × (last_task f p k ≡ ok q)
      × (front ++ q ∷ [] ≡ x ∷ xs)
      × (next_of k q ≡ 0)
      × (q ≢ 0)
unfolding last_task
last_task_lem zero p x xs k c h = elim h [ ]
last_task_lem (suc f) p x [] k (e, ne, out, c) h = (x, [], ground arith, refl, c, ne)
last_task_lem (suc f) p x (y ∷ ys) k (e, ne, out, c) h =
    let (q, front, found, whole, end, nq) = last_task_lem f (next_of k x) y ys k c (omega arith) in
    (q, x ∷ front, ground (arith, c.0, c.1), ap (λ l. x ∷ l) whole, end, nq)

-- Under round robin a task that is in no list and leads to none goes to the end of the ready list,
-- unchanged, and the current task stays.
pub preempt-append :
    (fuel t x : ℕ) (xs : List ℕ) (k : Kernel)
    → k.algorithm ≡ 0
    → Ready k (x ∷ xs)
    → length xs < fuel
    → t ≢ 0
    → has t (x ∷ xs) ≡ false
    → next_of k t ≡ 0
    → (k' : Kernel) × (preempt_task fuel t k ≡ ok k')
      × Ready k' ((x ∷ xs) ++ t ∷ [])
      × (k'.current_task ≡ k.current_task)
      × (k'.tasks t ≡ k.tasks t)
      × (k'.memory ≡ k.memory)
unfolding preempt_task
preempt-append fuel t x xs k alg c h nt out last =
    let (q, front, found, whole, end, nq) = last_task_lem fuel k.ready_queue x xs k c h in
    let c' : Chain (next_of k) k.ready_queue (front ++ q ∷ []) = rw whole c in
    let out' : has t (front ++ q ∷ []) ≡ false = rw whole out in
    let longer = insert_behind k.ready_queue q t front [] (next_of k) c' nt out' in
    let order : front ++ q ∷ t ∷ [] ≡ (x ∷ xs) ++ t ∷ [] =
      sym (append_assoc front (q ∷ []) (t ∷ [])) ∙ ap (λ l. l ++ t ∷ []) whole in
    let apart : (q == t) ≡ false = ground (arith, has-append t front (q ∷ [])) in
    let round_robin : (k.algorithm == 0) ≡ true = ground arith in
    (
      linked q t k,
      rw (round_robin, found) (set_next-linked q t k nq),
      subst (Ready (linked q t k)) order (Chain_ext _ _ _ _ (λ a. ground arith) longer),
      refl,
      rw apart refl,
      refl,
    )

-- A list from one of its addresses on.
pub suffix : (f : ℕ → ℕ) (p c : ℕ) (bs zs : List ℕ) → Chain f p (bs ++ c ∷ zs) → Chain f c (c ∷ zs)
suffix f p c [] zs h = (refl, h.1, h.2, h.3)
suffix f p c (b ∷ bs) zs (e, ne, out, h) = suffix f (f b) c bs zs h

-- the list with t put in before the first task whose priority is not greater
abbrev pub insert_low : Kernel → ℕ → ℕ → List ℕ → List ℕ
insert_low k priority t [] = t ∷ []
insert_low k priority t (z ∷ zs) =
    if ltb priority (average k z) then z ∷ insert_low k priority t zs else t ∷ z ∷ zs

-- the list has a task whose priority is not greater
abbrev pub has_low : Kernel → ℕ → List ℕ → Bool
has_low k priority [] = false
has_low k priority (z ∷ zs) = if ltb priority (average k z) then has_low k priority zs else true

module _ (priority t : ℕ) (k : Kernel) where
  find_place_lem :
      (f p x : ℕ) (xs : List ℕ)
      → Chain (next_of k) p (x ∷ xs)
      → length xs < f
      → has_low k priority xs ≡ true
      → (q : ℕ) × (front : List ℕ) × (back : List ℕ) × (find_place f priority p k ≡ ok (behind q))
        × (front ++ q ∷ back ≡ x ∷ xs)
        × (front ++ q ∷ t ∷ back ≡ x ∷ insert_low k priority t xs)
        × (q ≢ 0)
  unfolding find_place
  find_place_lem zero p x xs c h low = elim h [ ]
  find_place_lem (suc f) p x [] c h low = cc
  find_place_lem (suc f) p x (y ∷ ys) (e, ne, out, c) h low =
      elim (Bool-cases (ltb priority (average k y))) [
        | inl higher ↦
            let low' : has_low k priority ys ≡ true = rw higher at low in
            let (q, front, back, found, whole, longer, nq) =
              find_place_lem f (next_of k x) y ys c (omega arith) low' in
            (
              q,
              x ∷ front,
              back,
              ground (arith, c.0, c.1, found),
              ap (λ l. x ∷ l) whole,
              rw higher (ap (λ l. x ∷ l) longer),
              nq,
            )
        | inr lower ↦ (x, [], y ∷ ys, ground (arith, c.0, c.1), refl, rw lower, ne)
      ]

  -- With only tasks of greater priority behind it the search reads the priority through a null
  -- pointer.
  find_place-fault :
      (f p x : ℕ) (xs : List ℕ)
      → Chain (next_of k) p (x ∷ xs)
      → length xs < f
      → has_low k priority xs ≡ false
      → find_place f priority p k ≡ fault
  unfolding find_place
  find_place-fault zero p x xs c h low = elim h [ ]
  find_place-fault (suc f) p x [] (e, ne, out, c) h low = ground arith
  find_place-fault (suc f) p x (y ∷ ys) (e, ne, out, c) h low =
      ground (arith, c.0, c.1, find_place-fault f (next_of k x) y ys c (omega arith))

module _ (fuel t : ℕ) (k : Kernel) (alg : k.algorithm ≡ 1) (nt : t ≢ 0)
    (nc : k.current_task ≢ 0) where
  not_robin : (k.algorithm == 0) ≡ false
  not_robin = ground arith

  is_sjf : (k.algorithm == 1) ≡ true
  is_sjf = ground arith

  t_found : (t == 0) ≡ false
  t_found = ground arith

  cur_found : (k.current_task == 0) ≡ false
  cur_found = ground arith

  insert_behind_run :
      (q : ℕ) → q ≢ 0 → insert_at (behind q) t k ≡ ok (linked q t (linked t (next_of k q) k))
  unfolding insert_at
  insert_behind_run q nq = let q_found : (q == 0) ≡ false = ground arith in rw (q_found, t_found)

  preempt_low :
      average k t ≤ average k k.current_task
      → preempt_task fuel t k
        ≡ (find_place fuel (average k t) k.current_task k >>= λ place. insert_at place t k)
  unfolding preempt_task
  preempt_low le =
      let lower : ltb (average k k.current_task) (average k t) ≡ false = ground arith in
      rw (not_robin, is_sjf, t_found, cur_found, lower)

  pub preempt_high :
      average k k.current_task < average k t → preempt_task fuel t k ≡ take_over fuel t k
  unfolding preempt_task
  preempt_high lt =
      let higher : ltb (average k k.current_task) (average k t) ≡ true = ground arith in
      rw (not_robin, is_sjf, t_found, cur_found, higher)

  -- Under shortest job first a task of no greater priority than the current one goes behind the
  -- tasks after the current one whose priority is greater, if the list holds one that is not; the
  -- current task stays.
  pub preempt-insert_low :
      (bs zs : List ℕ)
      → Ready k (bs ++ k.current_task ∷ zs)
      → length zs < fuel
      → has t (bs ++ k.current_task ∷ zs) ≡ false
      → average k t ≤ average k k.current_task
      → has_low k (average k t) zs ≡ true
      → (k' : Kernel) × (preempt_task fuel t k ≡ ok k')
        × Ready k' (bs ++ k.current_task ∷ insert_low k (average k t) t zs)
        × (k'.current_task ≡ k.current_task)
  preempt-insert_low bs zs c h out le low =
      let cur = k.current_task in
      let (q, front, back, found, whole, longer, nq) =
        find_place_lem (average k t) t k fuel cur cur zs
          (suffix (next_of k) k.ready_queue cur bs zs c) h low in
      let order : (bs ++ front) ++ q ∷ back ≡ bs ++ cur ∷ zs =
        append_assoc bs front (q ∷ back) ∙ ap (λ l. bs ++ l) whole in
      let order' : (bs ++ front) ++ q ∷ t ∷ back ≡ bs ++ cur ∷ insert_low k (average k t) t zs =
        append_assoc bs front (q ∷ t ∷ back) ∙ ap (λ l. bs ++ l) longer in
      let new =
        insert_behind k.ready_queue q t (bs ++ front) back (next_of k)
          (subst (Ready k) (sym order) c) nt (subst (λ l. has t l ≡ false) (sym order) out) in
      let k' = linked q t (linked t (next_of k q) k) in
      (
        k',
        preempt_low le ∙ rw found (insert_behind_run q nq),
        subst (Ready k') order' (Chain_ext _ _ _ _ (λ a. ground arith) new),
        refl,
      )

  -- Under shortest job first a task of no greater priority than the current one, and of smaller
  -- priority than every task after it, makes the search read through a null pointer.
  pub preempt-fault :
      (bs zs : List ℕ)
      → Ready k (bs ++ k.current_task ∷ zs)
      → length zs < fuel
      → average k t ≤ average k k.current_task
      → has_low k (average k t) zs ≡ false
      → preempt_task fuel t k ≡ fault
  preempt-fault bs zs c h le low =
      preempt_low le
      ∙ rw (
          find_place-fault (average k t) t k fuel k.current_task k.current_task zs
            (suffix (next_of k) k.ready_queue k.current_task bs zs c) h low)
