-- ===== src/Pool/World.antt =====
-- The pool with its threads: each event is one critical section or one call, and a list of events
-- is an interleaving. `executed`, `dropped` and `direct` record what became of the tasks.
use moveon.Base.{
  ℕ, zero, suc, List, [], ◌∷◌, ◌++◌, Option, none, some, Bool, true, get_elem?, set, if◌then◌else◌,
}
use moveon.Base.Int.{incr, decr, eq_ℤ, is_positive}
use moveon.Pool.Queue.{
  Pool, TaskType, timer_task, normal_task, highest_priority_task, new_pool, get_task, start_threads,
}

-- A worker waits on the condition, runs its task, or has returned from `run`.
pub data Worker (T : Type 0) : Type 0 where
  waiting : Worker T
  running : T → Worker T
  finished : Worker T

pub record World (T : Type 0) : Type 0 where
  pub pool : Pool T
  pub workers : List (Worker T)
  pub executed : List T  -- calls of `func()` that workers began
  pub direct : List T  -- tasks that `add_task` gave a thread of their own
  pub dropped : List T  -- tasks that a worker took and did not run

pub data Event (T : Type 0) : Type 0 where
  initialises : Event T
  adds : TaskType → T → Event T
  wakes : ℕ → Event T
  finishes : ℕ → Event T
  releases : Event T

unfoldable pub new_world : (T : Type 0) → World T
unfolding new_pool
new_world T = record { pool = new_pool T; workers = []; executed = []; direct = []; dropped = [] }

module _ {T : Type 0} where
  abbrev pub fresh_workers : ℕ → List (Worker T)
  fresh_workers zero = []
  fresh_workers (suc n) = waiting ∷ fresh_workers n

  -- `init_thread_pool`, on a machine with `nprocs` processors.
  unfoldable pub init_thread_pool : ℕ → World T → World T
  unfolding start_threads
  init_thread_pool nprocs w =
      if w.pool.inited
      then w
      else (let (started, core_num) = start_threads nprocs in
          record w {
            pool = record (w.pool) { thread_num = core_num; inited = true };
            workers = w.workers ++ fresh_workers started;
          })

  -- `add_task`. The call of `notify_all` at its end makes waiting workers wake, an event of its own.
  unfoldable pub add_task : TaskType → T → World T → World T
  add_task highest_priority_task f w =
      if eq_ℤ w.pool.thread_num w.pool.current_run_thread
      then record w { direct = w.direct ++ (f ∷ []) }
      else record w { pool = record (w.pool) { hpest_queue = w.pool.hpest_queue ++ (f ∷ []) } }
  add_task normal_task f w = record w {
    pool = record (w.pool) { normal_queue = w.pool.normal_queue ++ (f ∷ []) };
  }
  add_task timer_task f w = record w {
    pool = record (w.pool) { timer_queue = w.pool.timer_queue ++ (f ∷ []) };
  }

  -- What a waiting worker `i` does after the predicate of `wait` called `get_task`, up to the call
  -- of `func` or to its next wait. The task is taken before `m_exit` is looked at.
  unfoldable pub evaluate : ℕ → World T → Option (T × Pool T) → World T
  evaluate i w none = if w.pool.exit then record w { workers = set w.workers i finished } else w
  evaluate i w (some (f, p)) =
      if w.pool.exit
      then record w {
        pool = p;
        workers = set w.workers i finished;
        dropped = w.dropped ++ (f ∷ []);
      }
      else record w {
        pool = record p { current_run_thread = incr p.current_run_thread };
        workers = set w.workers i (running f);
        executed = w.executed ++ (f ∷ []);
      }

  unfoldable pub wake_one : ℕ → World T → Option (Worker T) → World T
  wake_one i w (some waiting) = evaluate i w (get_task w.pool)
  wake_one i w (some (running f)) = w
  wake_one i w (some finished) = w
  wake_one i w none = w

  unfoldable pub wake : ℕ → World T → World T
  wake i w = wake_one i w (get_elem? w.workers i)

  unfoldable pub finish_one : ℕ → World T → Option (Worker T) → World T
  finish_one i w (some (running f)) = record w {
    pool = record (w.pool) { current_run_thread = decr w.pool.current_run_thread };
    workers = set w.workers i finished;
  }
  finish_one i w (some waiting) = w
  finish_one i w (some finished) = w
  finish_one i w none = w

  -- `func()` returns in worker `i`, and `run` with it.
  unfoldable pub finish : ℕ → World T → World T
  finish i w = finish_one i w (get_elem? w.workers i)

  -- The start of `release`.
  unfoldable pub request_exit : World T → World T
  request_exit w = record w { pool = record (w.pool) { exit = true } }

  -- The test of the loop in `release`: it returns when this is false.
  unfoldable pub release_waits : World T → Bool
  release_waits w = is_positive w.pool.current_run_thread

  unfoldable pub step : ℕ → World T → Event T → World T
  step nprocs w initialises = init_thread_pool nprocs w
  step nprocs w (adds tt f) = add_task tt f w
  step nprocs w (wakes i) = wake i w
  step nprocs w (finishes i) = finish i w
  step nprocs w releases = request_exit w

  unfoldable pub run : ℕ → World T → List (Event T) → World T
  run nprocs w [] = w
  run nprocs w (e ∷ es) = run nprocs (step nprocs w e) es
