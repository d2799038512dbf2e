-- ===== src/Pool/Priority.antt =====
-- The order in which a new pool serves its tasks.
use moveon.Base.{
  ℕ, zero, suc, ◌<◌, ◌≡◌, refl, sym, ap, subst, ◌∙◌, List, [], ◌∷◌, ◌++◌, map, append-nil,
  append_assoc, some, Bool, true, false, All, take, drop, length, get_elem?, arith, if◌then◌else◌,
}
use moveon.Base.Int.{pos, negsuc, eq_ℤ}
use moveon.Pool.Queue.{TaskType, timer_task, normal_task, highest_priority_task, new_pool}
use moveon.Pool.Order.{pending}
use moveon.Pool.Laws.{start_threads_lem}
use moveon.Pool.World.{
  World, waiting, Event, initialises, adds, wakes, new_world, fresh_workers, init_thread_pool,
  add_task, step, run,
}
use moveon.Pool.Progress.{Differ, AllWait, run-Served}

abbrev same_type : TaskType → TaskType → Bool
same_type highest_priority_task highest_priority_task = true
same_type timer_task timer_task = true
same_type normal_task normal_task = true
same_type _ _ = false

module _ {T : Type 0} where
  -- The tasks of a type, in order.
  abbrev of_type : TaskType → List (TaskType × T) → List T
  of_type k [] = []
  of_type k ((kind, f) ∷ tasks) =
      let rest = of_type k tasks in if same_type kind k then f ∷ rest else rest

  -- The order of service: by type, and in a type by arrival.
  abbrev pub by_priority : List (TaskType × T) → List T
  by_priority tasks =
      of_type highest_priority_task tasks ++ (of_type timer_task tasks ++ of_type normal_task tasks)

  abbrev pub add_events : List (TaskType × T) → List (Event T)
  add_events tasks = map (λ t. adds t.0 t.1) tasks

  abbrev with_queues : World T → List T → List T → List T → World T
  with_queues w hs ts ns = record w {
    pool = record (w.pool) { hpest_queue = hs; timer_queue = ts; normal_queue = ns };
  }

  -- The pool with tasks at the ends of its queues.
  abbrev queued : World T → List (TaskType × T) → World T
  queued w tasks =
      with_queues w (w.pool.hpest_queue ++ of_type highest_priority_task tasks)
        (w.pool.timer_queue ++ of_type timer_task tasks)
        (w.pool.normal_queue ++ of_type normal_task tasks)

  run-add_events :
      (nprocs : ℕ) (tasks : List (TaskType × T)) (w : World T)
      → eq_ℤ w.pool.thread_num w.pool.current_run_thread ≡ false
      → run nprocs w (add_events tasks) ≡ queued w tasks
  unfolding run step add_task
  run-add_events nprocs [] w free =
      ap (λ hs. with_queues w hs w.pool.timer_queue w.pool.normal_queue)
        (sym (append-nil w.pool.hpest_queue))
      ∙ ap (λ ts. with_queues w (w.pool.hpest_queue ++ []) ts w.pool.normal_queue)
          (sym (append-nil w.pool.timer_queue))
      ∙ ap (λ ns. with_queues w (w.pool.hpest_queue ++ []) (w.pool.timer_queue ++ []) ns)
          (sym (append-nil w.pool.normal_queue))
  run-add_events nprocs ((highest_priority_task, f) ∷ tasks) w free =
      ap
        (λ b.
          run nprocs
            (if b then record w { direct = w.direct ++ (f ∷ []) } else record w {
              pool = record (w.pool) { hpest_queue = w.pool.hpest_queue ++ (f ∷ []) };
            })
            (add_events tasks))
        free
      ∙ run-add_events nprocs tasks
          (record w { pool = record (w.pool) { hpest_queue = w.pool.hpest_queue ++ (f ∷ []) } })
          free
      ∙ ap
          (λ hs.
            with_queues w hs (w.pool.timer_queue ++ of_type timer_task tasks)
              (w.pool.normal_queue ++ of_type normal_task tasks))
          (append_assoc w.pool.hpest_queue (f ∷ []) (of_type highest_priority_task tasks))
  run-add_events nprocs ((timer_task, f) ∷ tasks) w free =
      run-add_events nprocs tasks (add_task timer_task f w) free
      ∙ ap
          (λ ts.
            with_queues w (w.pool.hpest_queue ++ of_type highest_priority_task tasks) ts
              (w.pool.normal_queue ++ of_type normal_task tasks))
          (append_assoc w.pool.timer_queue (f ∷ []) (of_type timer_task tasks))
  run-add_events nprocs ((normal_task, f) ∷ tasks) w free =
      run-add_events nprocs tasks (add_task normal_task f w) free
      ∙ ap
          (λ ns.
            with_queues w (w.pool.hpest_queue ++ of_type highest_priority_task tasks)
              (w.pool.timer_queue ++ of_type timer_task tasks) ns)
          (append_assoc w.pool.normal_queue (f ∷ []) (of_type normal_task tasks))

  run-append :
      (nprocs : ℕ) (es fs : List (Event T)) (w : World T)
      → run nprocs w (es ++ fs) ≡ run nprocs (run nprocs w es) fs
  unfolding run
  run-append nprocs [] fs w = refl
  run-append nprocs (e ∷ es) fs w = run-append nprocs es fs (step nprocs w e)

fresh-AllWait :
    (T : Type 0) (n : ℕ) (is : List ℕ) → All (λ i. i < n) is → AllWait is (fresh_workers {T = T} n)
fresh-AllWait T n [] h = tt
fresh-AllWait T n (i ∷ is) (a, h) = (at n i a, fresh-AllWait T n is h)
  where
    at : (n i : ℕ) → i < n → get_elem? (fresh_workers {T = T} n) i ≡ some waiting
    at zero i a = absurd (omega arith)
    at (suc n) zero a = refl
    at (suc n) (suc i) a = at n i (omega arith)

module _ {T : Type 0} where
  -- A new pool after its initialisation.
  abbrev initialised : ℕ → World T
  initialised nprocs = record {
    pool = record {
      current_run_thread = pos 0;
      thread_num = negsuc 0;
      exit = false;
      inited = true;
      hpest_queue = [];
      timer_queue = [];
      normal_queue = [];
    };
    workers = fresh_workers nprocs;
    executed = [];
    direct = [];
    dropped = [];
  }

  initialised_lem : (nprocs : ℕ) → run nprocs (new_world T) (initialises ∷ []) ≡ initialised nprocs
  unfolding run step init_thread_pool new_world new_pool
  initialised_lem nprocs = rw (start_threads_lem nprocs)

  -- The pool serves: a new pool is initialised, is given any tasks, and then any different workers
  -- of it wake up. As many tasks as workers woke are begun, in the order of service, by type and in
  -- a type by arrival, and the others wait in this order.
  pub wakes-by_priority :
      (nprocs : ℕ) (tasks : List (TaskType × T)) (is : List ℕ)
      → All (λ i. i < nprocs) is
      → Differ is
      → let w = run nprocs (new_world T) (initialises ∷ (add_events tasks ++ map wakes is)) in
        (w.executed ≡ take (length is) (by_priority tasks))
        × (pending w.pool ≡ drop (length is) (by_priority tasks))
  unfolding run step
  wakes-by_priority nprocs tasks is small differ =
      let from = queued (initialised nprocs) tasks in
      let there =
        ap (λ w. run nprocs w (add_events tasks ++ map wakes is)) (initialised_lem nprocs)
        ∙ run-append nprocs (add_events tasks) (map wakes is) (initialised nprocs)
        ∙ ap (λ w. run nprocs w (map wakes is))
            (run-add_events nprocs tasks (initialised nprocs) refl) in
      subst
        (λ (w : World T).
          (w.executed ≡ take (length is) (by_priority tasks))
          × (pending w.pool ≡ drop (length is) (by_priority tasks)))
        (sym there) (run-Served nprocs is from refl (fresh-AllWait T nprocs is small) differ)
