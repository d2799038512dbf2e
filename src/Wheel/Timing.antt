-- ===== src/Wheel/Timing.antt =====
-- The two promises of time_wheel: when a timer fires, and what `cancel_timer` answers and does.
use moveon.Base.{
  ℕ, suc, ◌+◌, ◌/◌, ◌%◌, ◌≤◌, ◌≡◌, refl, sym, ap, ◌∙◌, subst, Bool, true, false, not, ◌&&◌, ◌==◌,
  ltb, arith, Bool-cases, inl, inr, Option, none, some, ==_iff,
}
use moveon.Base.Int.{ℤ, pos, negsuc, is_negative}
use moveon.Wheel.Timer.{
  Task, Wheel, update, new_task, slot_of, add_ms_task, cancel_in, cancel_timer, ticks, handed,
}
use moveon.Wheel.Entry.{has_id, Sole, cancelled, cancelled-id, Sole-cancel}
use moveon.Wheel.Delay.{
  meets, count_after, meets_lem, meets-zero, meets-negsuc, negative_lem, count_after-zero,
  fires_after,
}
use moveon.Wheel.Laws.{
  IsReady, Keeps, update_same, update_other, add_ms_task-Keeps, ticks_lem, counted,
}

-- Whether the tick after `n` ticks is the one that a delay names.
abbrev pub is_now : Option ℕ → ℕ → Bool
is_now none n = false
is_now (some d) n = suc n == d

-- Whether a delay is not over after `n` ticks.
abbrev pub is_ahead : Option ℕ → ℕ → Bool
is_ahead none n = true
is_ahead (some d) n = ltb n d

meets_delay :
    (n ms scale : ℕ)
    → 1 ≤ scale
    → scale ≤ 100
    → meets n scale ((ms + scale) % 100) (pos ((ms + scale) / 100))
      ≡ is_now (fires_after ms scale) n
meets_delay n ms scale low high = elim (Bool-cases ((ms + scale) % 100 == 0)) [
  | inl none_ever ↦ rw none_ever (
      subst (λ s. meets n scale s (pos ((ms + scale) / 100)) ≡ false)
        (sym ((==_iff ((ms + scale) % 100) 0).0 none_ever))
        (meets-zero n scale (pos ((ms + scale) / 100)) low))
  | inr some_time ↦
      rw
        (
          some_time,
          meets_lem n scale ((ms + scale) % 100) ((ms + scale) / 100) low high (ground arith)
              (omega arith),
        )
        (ground arith)
]

negative_delay :
    (n ms scale : ℕ)
    → 1 ≤ scale
    → scale ≤ 100
    → not (is_negative (count_after n scale ((ms + scale) % 100) (pos ((ms + scale) / 100))))
      ≡ is_ahead (fires_after ms scale) n
negative_delay n ms scale low high = elim (Bool-cases ((ms + scale) % 100 == 0)) [
  | inl none_ever ↦ rw none_ever (
      subst (λ s. not (is_negative (count_after n scale s (pos ((ms + scale) / 100)))) ≡ true)
        (sym ((==_iff ((ms + scale) % 100) 0).0 none_ever))
        (rw (count_after-zero n scale (pos ((ms + scale) / 100)) low)))
  | inr some_time ↦
      rw
        (
          some_time,
          negative_lem n scale ((ms + scale) % 100) ((ms + scale) / 100) low high (ground arith)
              (omega arith),
        )
        (ground arith)
]

and_true : (b : Bool) → (b && true) ≡ b
and_true true = refl
and_true false = refl

and_false : (b : Bool) → (b && false) ≡ false
and_false true = refl
and_false false = refl

module _ {T : Type 0} where
  -- Beside any other timers, a timer of `ms` milliseconds is handed to the thread pool by exactly
  -- one tick or by none: after `ms` ticks if its slot lies ahead of the pointer on this turn of the
  -- wheel, 100 ticks later if it does not, and never if its slot is 0.
  pub add_ms_task-handed :
      (ms : ℕ) (f : T) (w : Wheel T) (n : ℕ)
      → IsReady w
      → let (w', id) = add_ms_task ms f w in
        has_id id (handed n w') ≡ is_now (fires_after ms w.current_scale) n
  unfolding add_ms_task
  add_ms_task-handed ms f w n v =
      let (_, at) =
        ticks_lem n (add_ms_task ms f w).0 (slot_of ms w) (new_task ms f w)
          (add_ms_task-Keeps ms f w v) in
      at ∙ and_true _ ∙ meets_delay n ms w.current_scale v.low v.high

  -- The slot after `cancel_in`.
  abbrev cancelled_slot : ℕ → ℕ → Wheel T → Wheel T
  cancelled_slot id slot w = record w {
    task_map = update w.task_map slot (cancel_in id (w.task_map slot)).0;
  }

  cancelled_slot-Keeps :
      (w : Wheel T) (slot : ℕ) (t : Task T)
      → Keeps w slot t
      → Keeps (cancelled_slot t.id slot w) slot (cancelled t)
  cancelled_slot-Keeps w slot t k =
      let id = cancelled-id t in
      record {
        low = k.low;
        high = k.high;
        indexed = ap w.id_map id ∙ k.indexed;
        sole =
            subst (Sole (cancelled t)) (sym (update_same w.task_map slot _)) (Sole-cancel k.sole).0;
        nowhere = λ other h.
            ap (has_id (cancelled t).id) (update_other w.task_map slot other _ h)
            ∙ ap (λ j. has_id j (w.task_map other)) id
            ∙ k.nowhere other h;
      }

  cancel_timer-Keeps :
      (w : Wheel T) (slot : ℕ) (t : Task T)
      → Keeps w slot t
      → Keeps (cancel_timer t.id w).0 slot (cancelled t)
        × ((cancel_timer t.id w).1 ≡ not (is_negative t.count))
  unfolding cancel_timer
  cancel_timer-Keeps w slot t k =
      subst
        (λ s.
          Keeps (cancelled_slot t.id s w) slot (cancelled t)
          × ((cancel_in t.id (w.task_map s)).1 ≡ not (is_negative t.count)))
        (sym k.indexed) (cancelled_slot-Keeps w slot t k, (Sole-cancel k.sole).1)

  -- A task that is past or not valid is not handed over.
  silent :
      (m scale slot : ℕ) (t : Task T)
      → (meets m scale slot (cancelled t).count && (cancelled t).valid) ≡ false
  silent m scale slot t = at t.count refl
    where
      at :
          (c : ℤ)
          → t.count ≡ c
          → (meets m scale slot (cancelled t).count && (cancelled t).valid) ≡ false
      at (pos n) e = simp e (and_false _)
      at (negsuc n) e = simp (e, meets-negsuc)

  -- Cancelling a timer after `n` ticks answers true exactly when its delay is not over, and then no
  -- later tick hands it over; if the delay is over, none does either.
  pub cancel_timer-handed :
      (ms : ℕ) (f : T) (w : Wheel T) (n m : ℕ)
      → IsReady w
      → let (w', id) = add_ms_task ms f w in
        let (w'', answer) = cancel_timer id (ticks n w') in
        (answer ≡ is_ahead (fires_after ms w.current_scale) n) × (has_id id (handed m w'') ≡ false)
  unfolding add_ms_task
  cancel_timer-handed ms f w n m v =
      let scale = w.current_scale in
      let t = new_task ms f w in
      let w' = (add_ms_task ms f w).0 in
      let (kept, _) = ticks_lem n w' (slot_of ms w) t (add_ms_task-Keeps ms f w v) in
      let run_down = counted t (count_after n scale (slot_of ms w) t.count) in
      let (after, answer) = cancel_timer-Keeps (ticks n w') (slot_of ms w) run_down kept in
      let (_, quiet) =
        ticks_lem m (cancel_timer t.id (ticks n w')).0 (slot_of ms w) (cancelled run_down) after in
      (
        answer ∙ negative_delay n ms scale v.low v.high,
        ap (λ j. has_id j (handed m (cancel_timer t.id (ticks n w')).0))
              (sym (cancelled-id run_down))
            ∙ quiet
            ∙ silent m _ (slot_of ms w) run_down,
      )
