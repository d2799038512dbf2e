-- ===== src/Pool/Capacity.antt =====
-- How much the pool can do, and what `release` waits for.
use moveon.Base.{
  ℕ, zero, suc, ◌≤◌, ◌≡◌, ◌↔◌, refl, ◌∙◌, List, [], ◌∷◌, ◌++◌, Option, none, some, true, false,
  arith, length, get_elem?, Bool-cases, inl, inr, ◌<◌,
}
use moveon.Base.Int.{pos, is_positive, eq_ℤ}
use moveon.Pool.Queue.{highest_priority_task, TaskType, timer_task, normal_task}
use moveon.Pool.World.{
  Worker, waiting, running, finished, World, Event, initialises, adds, wakes, finishes, releases,
  new_world, init_thread_pool, add_task, wake, wake_one, finish, finish_one, request_exit,
  release_waits, step, run,
}
use moveon.Pool.Laws.{
  Inv, is_running, is_used, total, total_used_le, total-set, run-Inv, new_world-Inv,
}

positive_iff : (n : ℕ) → (is_positive (pos n) ≡ false) ↔ (n ≡ 0)
positive_iff zero = ((λ h. refl), (λ h. refl))
positive_iff (suc n) = ((λ h. cc), (λ h. absurd (omega arith)))

module _ {T : Type 0} (nprocs : ℕ) (es : List (Event T)) where
  abbrev reached : World T
  reached = run nprocs (new_world T) es

  valid : Inv nprocs reached
  valid = run-Inv nprocs (new_world T) es (new_world-Inv nprocs)

  -- Over any events, the workers begin at most as many tasks as there are processors: a worker
  -- returns after its first task, and no other is started.
  pub executed-le-nprocs : length reached.executed ≤ nprocs
  executed-le-nprocs = omega (arith, valid.used, valid.crew, total_used_le reached.workers)

  -- Once the pool is initialised, `add_task` never gives a highest priority task a thread of its
  -- own, however many workers are busy: it joins the end of its queue, and the counter of running
  -- threads is the number of workers in a task.
  pub never_direct :
      (f : T)
      → reached.pool.inited ≡ true
      → (reached.pool.current_run_thread ≡ pos (total is_running reached.workers))
        × ((add_task highest_priority_task f reached).direct ≡ reached.direct)
        × ((add_task highest_priority_task f reached).pool.hpest_queue
            ≡ reached.pool.hpest_queue ++ (f ∷ []))
  unfolding add_task
  never_direct f e =
      let num = valid.num_after e in
      (valid.counted, simp (num, valid.counted), simp (num, valid.counted))

  -- Over any events, the loop of `release` ends exactly when no worker is inside a task; workers
  -- that wait, and have not seen the exit flag, do not hold it.
  pub release_waits_iff : (release_waits reached ≡ false) ↔ (total is_running reached.workers ≡ 0)
  unfolding release_waits
  release_waits_iff = rw valid.counted (positive_iff (total is_running reached.workers))

-- The pool is spent when it is initialised and every worker is in its task or past it.
pub record IsSpent {T : Type 0} (w : World T) : Type 0 where
  pub is_inited : w.pool.inited ≡ true
  pub all_used : total is_used w.workers ≡ length w.workers

module _ {T : Type 0} where
  waiting_below :
      (ws : List (Worker T)) (i : ℕ) → get_elem? ws i ≡ some waiting → total is_used ws < length ws
  waiting_below [] i e = cc
  waiting_below (w ∷ ws) zero e = ground (arith, total_used_le ws)
  waiting_below (w ∷ ws) (suc i) e = ground (arith, waiting_below ws i e)

  -- Whether a step keeps the pool spent, and begins no task.
  abbrev Keeps : World T → World T → Type 0
  Keeps w w' = IsSpent w' × (w'.executed ≡ w.executed)

  wake-Keeps : (w : World T) (i : ℕ) → IsSpent w → Keeps w (wake i w)
  unfolding wake
  wake-Keeps w i s = at (get_elem? w.workers i) refl
    where
      at : (o : Option (Worker T)) → get_elem? w.workers i ≡ o → Keeps w (wake_one i w o)
      at none e = unfold wake_one in (s, refl)
      at (some waiting) e = absurd (omega (arith, waiting_below w.workers i e, s.all_used))
      at (some (running f)) e = unfold wake_one in (s, refl)
      at (some finished) e = unfold wake_one in (s, refl)

  finish-Keeps : (w : World T) (i : ℕ) → IsSpent w → Keeps w (finish i w)
  unfolding finish
  finish-Keeps w i s = at (get_elem? w.workers i) refl
    where
      at : (o : Option (Worker T)) → get_elem? w.workers i ≡ o → Keeps w (finish_one i w o)
      at none e = unfold finish_one in (s, refl)
      at (some waiting) e = unfold finish_one in (s, refl)
      at (some finished) e = unfold finish_one in (s, refl)
      at (some (running f)) e =
          let (used, same) = total-set is_used w.workers i (running f) finished e in
          unfold finish_one in
          (record { is_inited = s.is_inited; all_used = omega (arith, s.all_used) }, refl)

  add_task-Keeps : (tt : TaskType) (f : T) (w : World T) → IsSpent w → Keeps w (add_task tt f w)
  unfolding add_task
  add_task-Keeps highest_priority_task f w s =
      elim (Bool-cases (eq_ℤ w.pool.thread_num w.pool.current_run_thread)) [
        | inl busy ↦ simp busy (record { is_inited = s.is_inited; all_used = s.all_used }, refl)
        | inr free ↦ simp free (record { is_inited = s.is_inited; all_used = s.all_used }, refl)
      ]
  add_task-Keeps normal_task f w s =
      (record { is_inited = s.is_inited; all_used = s.all_used }, refl)
  add_task-Keeps timer_task f w s =
      (record { is_inited = s.is_inited; all_used = s.all_used }, refl)

  init-Keeps : (nprocs : ℕ) (w : World T) → IsSpent w → Keeps w (init_thread_pool nprocs w)
  unfolding init_thread_pool
  init-Keeps nprocs w s = simp (s.is_inited) (s, refl)

  step-Keeps : (nprocs : ℕ) (w : World T) (e : Event T) → IsSpent w → Keeps w (step nprocs w e)
  unfolding step request_exit
  step-Keeps nprocs w initialises s = init-Keeps nprocs w s
  step-Keeps nprocs w (adds tt f) s = add_task-Keeps tt f w s
  step-Keeps nprocs w (wakes i) s = wake-Keeps w i s
  step-Keeps nprocs w (finishes i) s = finish-Keeps w i s
  step-Keeps nprocs w releases s = (record { is_inited = s.is_inited; all_used = s.all_used }, refl)

-- Once every worker of an initialised pool is in its task or past it, no event at all, whatever is
-- added or initialised again, makes a worker begin another task.
pub spent_forever :
    {T : Type 0} (nprocs : ℕ) (w : World T) (es : List (Event T))
    → IsSpent w
    → (run nprocs w es).executed ≡ w.executed
unfolding run
spent_forever nprocs w [] s = refl
spent_forever nprocs w (e ∷ es) s =
    let (still, same) = step-Keeps nprocs w e s in
    spent_forever nprocs (step nprocs w e) es still ∙ same
