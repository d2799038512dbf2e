-- ===== src/Wheel/Soon.antt =====
-- The timers of a slot that the next tick may hand over, and what they are in the thread pool.
use moveon.Base.{
  ℕ, suc, ◌+◌, ◌≤◌, ◌≡◌, refl, ap, ◌∙◌, List, [], ◌∷◌, map, Bool, false, ◌&&◌, ◌==◌, ◌/◌, ==_iff,
  if◌then◌else◌, arith, Bool-cases, inl, inr,
}
use moveon.Base.Int.{pos, eq_ℤ, is_negative}
use moveon.Pool.Queue.{timer_task}
use moveon.Pool.World.{World, add_task}
use moveon.Pool.Accounts.{count_if, count_if-append, known, add_task-known}
use moveon.Wheel.Timer.{
  Task, Wheel, place, new_task, slot_of, add_ms_task, cancel_in, cancel_timer, turn, due_tasks,
  process, tick,
}
use moveon.Wheel.Start.{Job, turn_and_process, timer, work}
use moveon.Wheel.Clock.{Moment, timers, is_turn, post_due}

module _ {T : Type 0} where
  abbrev pub jobs_of : List (Task T) → List (Job T)
  jobs_of xs = map (λ i. timer i.task) xs

  -- The timers of exactly one millisecond that some moments ask for.
  abbrev pub one_ms : List (Moment T) → List T
  one_ms [] = []
  one_ms (timers ms f ∷ es) = let rest = one_ms es in if ms == 1 then f ∷ rest else rest
  one_ms (_ ∷ es) = one_ms es

  pub tick-first : (w : Wheel T) → w.current_scale ≡ 1 → (tick w).1 ≡ due_tasks (w.task_map 2)
  unfolding tick process turn
  tick-first w one = rw one

  pub tick-inited : (w : Wheel T) → (tick w).0.inited ≡ w.inited
  unfolding tick process turn
  tick-inited w = elim (Bool-cases (w.current_scale == 100)) [ inl e ↦ simp e | inr e ↦ simp e ]

  pub jobs-is_turn : (xs : List (Task T)) → count_if is_turn (jobs_of xs) ≡ 0
  jobs-is_turn [] = refl
  jobs-is_turn (x ∷ xs) = jobs-is_turn xs

  pub post_due-known :
      (p : Job T → Bool) (xs : List (Task T)) (w : World (Job T))
      → known p (post_due xs w) ≡ known p w + count_if p (jobs_of xs)
  unfolding post_due
  post_due-known p [] w = omega arith
  post_due-known p (x ∷ xs) w =
      post_due-known p xs (add_task timer_task (timer x.task) w)
      ∙ omega (
        arith,
        add_task-known p timer_task (timer x.task) w,
        count_if-append p (timer x.task ∷ []) (jobs_of xs),
      )

module _ {T : Type 0} (q : T → Bool) where
  abbrev pub is_timer : Job T → Bool
  is_timer turn_and_process = false
  is_timer (timer f) = q f
  is_timer (work f) = false

  -- The tasks of a slot whose count is 0.
  abbrev pub soon : List (Task T) → ℕ
  soon [] = 0
  soon (i ∷ tasks) =
      let rest = soon tasks in if eq_ℤ i.count (pos 0) && q i.task then suc rest else rest

  pub soon-place : (t : Task T) (xs : List (Task T)) → soon (place t xs) ≤ soon xs + soon (t ∷ [])
  unfolding place
  soon-place t [] = omega arith
  soon-place t (x ∷ xs) = elim (Bool-cases (is_negative x.count)) [
    | inl past ↦ simp past (ground arith)
    | inr alive ↦ simp alive (ground (arith, soon-place t xs))
  ]

  pub soon-cancel_in : (id : ℕ) (xs : List (Task T)) → soon (cancel_in id xs).0 ≡ soon xs
  unfolding cancel_in
  soon-cancel_in id [] = refl
  soon-cancel_in id (x ∷ xs) = ground (arith, soon-cancel_in id xs)

  pub due_tasks-soon : (xs : List (Task T)) → count_if is_timer (jobs_of (due_tasks xs)) ≤ soon xs
  unfolding due_tasks
  due_tasks-soon [] = omega arith
  due_tasks-soon (x ∷ xs) = ground (arith, due_tasks-soon xs)

  pub soon-new_task :
      (ms : ℕ) (f : T) (w : Wheel T)
      → w.current_scale ≡ 1
      → slot_of ms w ≡ 2
      → soon (new_task ms f w ∷ []) ≤ count_if q (one_ms (timers ms f ∷ []))
  soon-new_task ms f w one two = elim (Bool-cases (ms == 1)) [
    | inl hit ↦ rw hit (ground arith)
    | inr miss ↦ let later : 1 ≤ (ms + w.current_scale) / 100 = ground arith in ground arith
  ]

  pub soon-add_ms_task :
      (ms : ℕ) (f : T) (w : Wheel T)
      → w.current_scale ≡ 1
      → soon ((add_ms_task ms f w).0.task_map 2)
        ≤ soon (w.task_map 2) + count_if q (one_ms (timers ms f ∷ []))
  unfolding add_ms_task
  soon-add_ms_task ms f w one = elim (Bool-cases (slot_of ms w == 2)) [
    | inl hit ↦ rw hit (
        let two = (==_iff (slot_of ms w) 2).0 hit in
        omega (
          arith,
          soon-place (new_task ms f w) (w.task_map (slot_of ms w)),
          ap (λ s. soon (w.task_map s)) two,
          soon-new_task ms f w one two,
        ))
    | inr miss ↦ rw miss (omega arith)
  ]

  pub soon-cancel_timer :
      (id : ℕ) (w : Wheel T) → soon ((cancel_timer id w).0.task_map 2) ≡ soon (w.task_map 2)
  unfolding cancel_timer
  soon-cancel_timer id w = elim (Bool-cases (w.id_map id == 2)) [
    | inl hit ↦ rw hit (
        soon-cancel_in id (w.task_map (w.id_map id))
        ∙ ap (λ s. soon (w.task_map s)) ((==_iff (w.id_map id) 2).0 hit))
    | inr miss ↦ rw miss
  ]
