-- ===== src/Pool/Accounts.antt =====
-- Where each task ends up, over every interleaving.
use moveon.Base.{
  ℕ, suc, ◌+◌, ◌≡◌, refl, ap, ◌∙◌, List, [], ◌∷◌, ◌++◌, Option, none, some, Bool, arith, get_elem?,
  Bool-cases, inl, inr, if◌then◌else◌,
}
use moveon.Base.Int.{eq_ℤ}
use moveon.Pool.Queue.{Pool, TaskType, timer_task, normal_task, highest_priority_task, get_task}
use moveon.Pool.Order.{pending, Takes, get_task-Takes}
use moveon.Pool.World.{
  Worker, waiting, running, finished, World, Event, initialises, adds, wakes, finishes, releases,
  new_world, init_thread_pool, add_task, evaluate, wake, wake_one, finish, finish_one, request_exit,
  step, run,
}

module _ {T : Type 0} where
  -- The tasks that a list of events hands to `add_task`.
  abbrev pub added : List (Event T) → List T
  added [] = []
  added (adds tt f ∷ es) = f ∷ added es
  added (initialises ∷ es) = added es
  added (wakes i ∷ es) = added es
  added (finishes i ∷ es) = added es
  added (releases ∷ es) = added es

  abbrev pub count_if : (T → Bool) → List T → ℕ
  count_if p [] = 0
  count_if p (x ∷ xs) = let rest = count_if p xs in if p x then suc rest else rest

  pub count_if-append :
      (p : T → Bool) (xs ys : List T) → count_if p (xs ++ ys) ≡ count_if p xs + count_if p ys
  count_if-append p [] ys = omega arith
  count_if-append p (x ∷ xs) ys = ground (arith, count_if-append p xs ys)

  -- All tasks that the world knows of, that satisfy `p`.
  abbrev pub known : (T → Bool) → World T → ℕ
  known p w =
      count_if p (pending w.pool)
      + count_if p w.executed
      + count_if p w.direct
      + count_if p w.dropped

module _ {T : Type 0} (p : T → Bool) where
  pending_count :
      (hs ts ns : List T)
      → count_if p (hs ++ (ts ++ ns)) ≡ count_if p hs + count_if p ts + count_if p ns
  pending_count hs ts ns = omega (arith, count_if-append p hs (ts ++ ns), count_if-append p ts ns)

  pub add_task-known :
      (tt : TaskType) (f : T) (w : World T)
      → known p (add_task tt f w) ≡ known p w + count_if p (f ∷ [])
  unfolding add_task
  add_task-known highest_priority_task f w =
      elim (Bool-cases (eq_ℤ w.pool.thread_num w.pool.current_run_thread)) [
        | inl busy ↦ simp busy (omega (arith, count_if-append p w.direct (f ∷ [])))
        | inr free ↦ simp free (
            omega (
              arith,
              pending_count w.pool.hpest_queue w.pool.timer_queue w.pool.normal_queue,
              pending_count (w.pool.hpest_queue ++ (f ∷ [])) w.pool.timer_queue w.pool.normal_queue,
              count_if-append p w.pool.hpest_queue (f ∷ []),
            ))
      ]
  add_task-known normal_task f w = omega (
    arith,
    pending_count w.pool.hpest_queue w.pool.timer_queue w.pool.normal_queue,
    pending_count w.pool.hpest_queue w.pool.timer_queue (w.pool.normal_queue ++ (f ∷ [])),
    count_if-append p w.pool.normal_queue (f ∷ []),
  )
  add_task-known timer_task f w = omega (
    arith,
    pending_count w.pool.hpest_queue w.pool.timer_queue w.pool.normal_queue,
    pending_count w.pool.hpest_queue (w.pool.timer_queue ++ (f ∷ [])) w.pool.normal_queue,
    count_if-append p w.pool.timer_queue (f ∷ []),
  )

  evaluate-known :
      (w : World T) (i : ℕ) (o : Option (T × Pool T))
      → Takes w.pool o
      → known p (evaluate i w o) ≡ known p w
  unfolding evaluate
  evaluate-known w i none t = elim (Bool-cases w.pool.exit) [
    | inl out ↦ simp out
    | inr on ↦ simp on
  ]
  evaluate-known w i (some (f, q)) t =
      let moved = ap (count_if p) t.order in
      let head = count_if-append p (f ∷ []) (pending q) in
      elim (Bool-cases w.pool.exit) [
        | inl out ↦ simp out (omega (arith, count_if-append p w.dropped (f ∷ [])))
        | inr on ↦ simp on (omega (arith, count_if-append p w.executed (f ∷ [])))
      ]

  pub wake-known : (w : World T) (i : ℕ) → known p (wake i w) ≡ known p w
  unfolding wake
  wake-known w i = at (get_elem? w.workers i)
    where
      at : (o : Option (Worker T)) → known p (wake_one i w o) ≡ known p w
      at none = unfold wake_one in refl
      at (some waiting) =
          unfold wake_one in evaluate-known w i (get_task w.pool) (get_task-Takes w.pool)
      at (some (running f)) = unfold wake_one in refl
      at (some finished) = unfold wake_one in refl

  pub finish-known : (w : World T) (i : ℕ) → known p (finish i w) ≡ known p w
  unfolding finish
  finish-known w i = at (get_elem? w.workers i)
    where
      at : (o : Option (Worker T)) → known p (finish_one i w o) ≡ known p w
      at none = unfold finish_one in refl
      at (some waiting) = unfold finish_one in refl
      at (some (running f)) = unfold finish_one in refl
      at (some finished) = unfold finish_one in refl

  pub init-known : (nprocs : ℕ) (w : World T) → known p (init_thread_pool nprocs w) ≡ known p w
  unfolding init_thread_pool
  init-known nprocs w = elim (Bool-cases w.pool.inited) [ inl e ↦ simp e | inr e ↦ simp e ]

  pub run-known :
      (nprocs : ℕ) (w : World T) (es : List (Event T))
      → known p (run nprocs w es) ≡ known p w + count_if p (added es)
  unfolding run step request_exit
  run-known nprocs w [] = omega arith
  run-known nprocs w (initialises ∷ es) =
      run-known nprocs (init_thread_pool nprocs w) es
      ∙ ap (λ n. n + count_if p (added es)) (init-known nprocs w)
  run-known nprocs w (adds tt f ∷ es) =
      run-known nprocs (add_task tt f w) es
      ∙ omega (arith, add_task-known tt f w, count_if-append p (f ∷ []) (added es))
  run-known nprocs w (wakes i ∷ es) =
      run-known nprocs (wake i w) es ∙ ap (λ n. n + count_if p (added es)) (wake-known w i)
  run-known nprocs w (finishes i ∷ es) =
      run-known nprocs (finish i w) es ∙ ap (λ n. n + count_if p (added es)) (finish-known w i)
  run-known nprocs w (releases ∷ es) = run-known nprocs (request_exit w) es

  -- No task is lost or doubled: after any events the tasks given to `add_task` are, as a multiset
  -- (counted by any test), those that wait, that a worker began, that got a thread of their own,
  -- and that a worker dropped on exit.
  pub tasks_conserved :
      (nprocs : ℕ) (es : List (Event T))
      → let w = run nprocs (new_world T) es in
        count_if p (added es)
        ≡ count_if p (pending w.pool)
          + count_if p w.executed
          + count_if p w.direct
          + count_if p w.dropped
  unfolding new_world
  tasks_conserved nprocs es = omega (arith, run-known nprocs (new_world T) es)
