-- ===== src/Pool/Queue.antt =====
-- The members of thread_pool, and the calls that run under its mutex.
use moveon.Base.{ℕ, zero, suc, List, [], ◌∷◌, Option, none, some, Bool, false}
use moveon.Base.Int.{ℤ, pos, negsuc}

-- The head of a queue is its front. A task is a bound function, of which nothing is known.
pub record Pool (T : Type 0) : Type 0 where
  pub current_run_thread : ℤ
  pub thread_num : ℤ
  pub exit : Bool
  pub inited : Bool
  pub hpest_queue : List T
  pub timer_queue : List T
  pub normal_queue : List T

pub data TaskType : Type 0 where
  timer_task normal_task highest_priority_task : TaskType

unfoldable pub new_pool : (T : Type 0) → Pool T
new_pool T = record {
  current_run_thread = pos 0;
  thread_num = pos 0;
  exit = false;
  inited = false;
  hpest_queue = [];
  timer_queue = [];
  normal_queue = [];
}

module _ {T : Type 0} where
  abbrev pub take_normal : Pool T → List T → Option (T × Pool T)
  take_normal p [] = none
  take_normal p (t ∷ ts) = some (t, record p { normal_queue = ts })

  abbrev pub take_timer : Pool T → List T → Option (T × Pool T)
  take_timer p [] = take_normal p p.normal_queue
  take_timer p (t ∷ ts) = some (t, record p { timer_queue = ts })

  abbrev pub take_hpest : Pool T → List T → Option (T × Pool T)
  take_hpest p [] = take_timer p p.timer_queue
  take_hpest p (t ∷ ts) = some (t, record p { hpest_queue = ts })

  -- `get_task(func)`: `none` is its result false.
  unfoldable pub get_task : Pool T → Option (T × Pool T)
  get_task p = take_hpest p p.hpest_queue

-- The loop `while (core_num--)`: how many threads it starts, and what it leaves in `core_num`.
unfoldable pub start_threads : ℕ → ℕ × ℤ
start_threads zero = (0, negsuc 0)
start_threads (suc n) = let (started, left) = start_threads n in (suc started, left)
