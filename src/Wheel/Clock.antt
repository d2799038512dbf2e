-- ===== src/Wheel/Clock.antt =====
-- The wheel and the thread pool together, from the call of `intance()` to the tasks that a tick
-- hands over. The body of a turn that a thread has begun waits for the wheel's mutex, and here it
-- may run at any later moment: the program's orders are among these.
use moveon.Base.{ℕ, suc, ◌+◌, List, [], ◌∷◌, ◌++◌, Bool, true, false, ltb, if◌then◌else◌}
use moveon.Pool.Queue.{TaskType, timer_task}
use moveon.Pool.World.{World, init_thread_pool, add_task, wake, finish, request_exit, new_world}
use moveon.Pool.Accounts.{count_if}
use moveon.Wheel.Timer.{Task, Wheel, new_wheel, add_ms_task, cancel_timer, tick}
use moveon.Wheel.Start.{Job, turn_and_process, timer, work, instance_call}

pub record Clock (T : Type 0) : Type 0 where
  pub wheel : Wheel T
  pub pool : World (Job T)
  -- what each thread of `init_wheel` that still sleeps for its millisecond will post
  pub sleeping : List (TaskType × Job T)
  pub turned : ℕ  -- bodies of turns that have run

pub data Moment (T : Type 0) : Type 0 where
  asks : Moment T  -- a call of `intance()`
  posts : Moment T  -- a thread of `init_wheel` wakes up
  turns : Moment T  -- the body of a begun turn runs
  timers : ℕ → T → Moment T  -- `add_ms_task`
  cancels : ℕ → Moment T
  adds : TaskType → T → Moment T  -- `add_task` by other code
  initialises releases : Moment T
  wakes finishes : ℕ → Moment T

unfoldable pub new_clock : (T : Type 0) → Clock T
new_clock T = record { wheel = new_wheel T; pool = new_world (Job T); sleeping = []; turned = 0 }

module _ {T : Type 0} where
  abbrev pub is_turn : Job T → Bool
  is_turn turn_and_process = true
  is_turn (timer f) = false
  is_turn (work f) = false

  -- The turns that threads of the pool, or threads of their own, have begun.
  abbrev pub begun : World (Job T) → ℕ
  begun w = count_if is_turn w.executed + count_if is_turn w.direct

  -- `add_task` for each task that `process` hands over, in order.
  unfoldable pub post_due : List (Task T) → World (Job T) → World (Job T)
  post_due [] w = w
  post_due (i ∷ tasks) w = post_due tasks (add_task timer_task (timer i.task) w)

  unfoldable pub turn_once : Clock T → Clock T
  turn_once c =
      let (wheel, due) = tick c.wheel in
      record c { wheel = wheel; pool = post_due due c.pool; turned = suc c.turned }

  -- The first sleeping thread posts its task and ends.
  unfoldable pub wake_up : Clock T → List (TaskType × Job T) → Clock T
  wake_up c [] = c
  wake_up c ((kind, job) ∷ rest) = record c { pool = add_task kind job c.pool; sleeping = rest }

  unfoldable pub moment : ℕ → Clock T → Moment T → Clock T
  moment nprocs c asks =
      let (wheel, tasks) = instance_call c.wheel in
      record c { wheel = wheel; sleeping = c.sleeping ++ tasks }
  moment nprocs c posts = wake_up c c.sleeping
  moment nprocs c turns = if ltb c.turned (begun c.pool) then turn_once c else c
  moment nprocs c (timers ms f) = record c { wheel = (add_ms_task ms f c.wheel).0 }
  moment nprocs c (cancels id) = record c { wheel = (cancel_timer id c.wheel).0 }
  moment nprocs c (adds kind f) = record c { pool = add_task kind (work f) c.pool }
  moment nprocs c initialises = record c { pool = init_thread_pool nprocs c.pool }
  moment nprocs c releases = record c { pool = request_exit c.pool }
  moment nprocs c (wakes i) = record c { pool = wake i c.pool }
  moment nprocs c (finishes i) = record c { pool = finish i c.pool }

  unfoldable pub moments : ℕ → Clock T → List (Moment T) → Clock T
  moments nprocs c [] = c
  moments nprocs c (m ∷ ms) = moments nprocs (moment nprocs c m) ms
