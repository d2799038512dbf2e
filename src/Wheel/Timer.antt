-- ===== src/Wheel/Timer.antt =====
-- The members of time_wheel and its operations. `m_task_map[s]` and `m_id_map[id]` create a missing
-- entry, with the empty vector and with 0, so the two maps are functions with these defaults.
-- Arguments in milliseconds are not negative, and `ms + m_current_scale` fits an int.
use moveon.Base.{
  ℕ, zero, suc, ◌+◌, ◌*◌, ◌/◌, ◌%◌, List, [], ◌∷◌, Bool, true, false, ◌&&◌, ◌==◌, u64,
  if◌then◌else◌, map,
}
use moveon.Base.Int.{ℤ, pos, decr, eq_ℤ, is_negative}

-- struct task
pub record Task (T : Type 0) : Type 0 where
  pub count : ℤ
  pub id : ℕ
  pub valid : Bool
  pub task : T

pub record Wheel (T : Type 0) : Type 0 where
  pub inited : Bool
  pub current_scale : ℕ
  pub cid : ℕ
  pub task_map : ℕ → List (Task T)
  pub id_map : ℕ → ℕ

abbrev pub scale_count : ℕ
scale_count = 100

unfoldable pub new_wheel : (T : Type 0) → Wheel T
new_wheel T = record {
  inited = false;
  current_scale = 1;
  cid = 0;
  task_map = λ slot. [];
  id_map = λ id. 0;
}

abbrev pub update {ℓ} : {A : Type ℓ} → (ℕ → A) → ℕ → A → ℕ → A
update f k v j = if k == j then v else f j

module _ {T : Type 0} where
  -- The loop of `add_ms_task` and the `push_back` after it: the first task that is past takes the
  -- new one, and the vector grows if there is none.
  unfoldable pub place : Task T → List (Task T) → List (Task T)
  place t [] = t ∷ []
  place t (i ∷ tasks) = if is_negative i.count then t ∷ tasks else i ∷ place t tasks

  -- The task that `add_ms_task` makes.
  abbrev pub new_task : ℕ → T → Wheel T → Task T
  new_task ms f w = record {
    count = pos ((ms + w.current_scale) / scale_count);
    id = u64 (w.cid + 1);
    valid = true;
    task = f;
  }

  abbrev pub slot_of : ℕ → Wheel T → ℕ
  slot_of ms w = (ms + w.current_scale) % scale_count

  unfoldable pub add_ms_task : ℕ → T → Wheel T → Wheel T × ℕ
  add_ms_task ms f w = (
    record w {
      cid = u64 (w.cid + 1);
      task_map =
          update w.task_map (slot_of ms w) (place (new_task ms f w) (w.task_map (slot_of ms w)));
      id_map = update w.id_map (u64 (w.cid + 1)) (slot_of ms w);
    },
    u64 (w.cid + 1),
  )

  unfoldable pub add_s_task : ℕ → T → Wheel T → Wheel T × ℕ
  unfolding add_ms_task
  add_s_task s f w = add_ms_task (1000 * s) f w

  -- The loop of `cancel_timer` over one slot.
  unfoldable pub cancel_in : ℕ → List (Task T) → List (Task T) × Bool
  cancel_in id [] = ([], false)
  cancel_in id (i ∷ tasks) =
      let (rest, done) = cancel_in id tasks in
      if i.id == id
      then (if is_negative i.count
          then (i ∷ tasks, false)
          else (record i { valid = false } ∷ tasks, true))
      else (i ∷ rest, done)

  unfoldable pub cancel_timer : ℕ → Wheel T → Wheel T × Bool
  cancel_timer id w =
      let slot = w.id_map id in
      let (tasks, done) = cancel_in id (w.task_map slot) in
      (record w { task_map = update w.task_map slot tasks }, done)

  unfoldable pub turn : Wheel T → Wheel T
  turn w =
      if w.current_scale == scale_count
      then record w { current_scale = 1 }
      else record w { current_scale = w.current_scale + 1 }

  -- What `process` does with one task: `i.count--`, after a due one went to the thread pool.
  abbrev pub is_due : Task T → Bool
  is_due i = eq_ℤ i.count (pos 0) && i.valid

  abbrev pub age : Task T → Task T
  age i = record i { count = decr i.count }

  -- The tasks of a slot that `process` hands to the thread pool, in order.
  unfoldable pub due_tasks : List (Task T) → List (Task T)
  due_tasks [] = []
  due_tasks (i ∷ tasks) = let rest = due_tasks tasks in if is_due i then i ∷ rest else rest

  unfoldable pub process : Wheel T → Wheel T × List (Task T)
  process w = (
    record w {
      task_map = update w.task_map w.current_scale (map age (w.task_map w.current_scale));
    },
    due_tasks (w.task_map w.current_scale),
  )

  -- The task that `init_wheel` posts for a millisecond: `turn` and `process` under the mutex.
  unfoldable pub tick : Wheel T → Wheel T × List (Task T)
  tick w = process (turn w)

  -- The wheel after `n` ticks, and what the tick after these hands over.
  unfoldable pub ticks : ℕ → Wheel T → Wheel T
  ticks zero w = w
  ticks (suc n) w = ticks n (tick w).0

  unfoldable pub handed : ℕ → Wheel T → List (Task T)
  handed n w = (tick (ticks n w)).1
