-- ===== src/Wheel/Start.antt =====
-- `init_wheel` and time_wheel_global_intance::intance: who makes the wheel turn.
use moveon.Base.{ℕ, zero, suc, ◌≡◌, refl, ap, List, [], ◌∷◌, ◌++◌, true, if◌then◌else◌}
use moveon.Pool.Queue.{TaskType, highest_priority_task}
use moveon.Wheel.Timer.{Wheel, new_wheel}

-- A task of the thread pool: the closure that calls `turn` and `process`, or a timer of the wheel.
pub data Job (T : Type 0) : Type 0 where
  turn_and_process : Job T
  timer : T → Job T
  work : T → Job T  -- a task of other code

module _ {T : Type 0} where
  -- The thread that `init_wheel` starts sleeps for a millisecond and posts these tasks, then ends.
  unfoldable pub init_wheel : Wheel T → Wheel T × List (TaskType × Job T)
  init_wheel w = (record w { inited = true }, (highest_priority_task, turn_and_process) ∷ [])

  -- One call of `intance()` on the wheel that the first call made.
  unfoldable pub instance_call : Wheel T → Wheel T × List (TaskType × Job T)
  unfolding init_wheel
  instance_call w = if w.inited then (w, []) else init_wheel w

  -- What `n` calls post in all.
  unfoldable pub posted : ℕ → Wheel T → List (TaskType × Job T)
  posted zero w = []
  posted (suc n) w = let (w', tasks) = instance_call w in tasks ++ posted n w'

  posted_inited : (n : ℕ) (w : Wheel T) → w.inited ≡ true → posted n w ≡ []
  unfolding posted instance_call
  posted_inited zero w e = refl
  posted_inited (suc n) w e = simp e (posted_inited n w e)

-- However often the global wheel is asked for, one single turn of it is ever posted, by the first
-- call: the wheel makes one tick and stops.
pub posted_once :
    (T : Type 0) (n : ℕ)
    → posted (suc n) (new_wheel T) ≡ (highest_priority_task, turn_and_process) ∷ []
unfolding posted instance_call new_wheel
posted_once T n =
    ap (λ tasks. (highest_priority_task, turn_and_process) ∷ tasks) (posted_inited n _ refl)
