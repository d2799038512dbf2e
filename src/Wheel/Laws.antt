-- ===== src/Wheel/Laws.antt =====
-- When a timer fires, and what cancelling it does, beside any other timers.
use moveon.Base.{
  ℕ, zero, suc, ◌+◌, ◌≤◌, ◌≡◌, refl, sym, ap, ◌∙◌, subst, List, map, false, ◌&&◌, ◌==◌, arith,
  if◌then◌else◌, Bool-cases, inl, inr, u64, ==_iff,
}
use moveon.Base.Int.{ℤ, pos, decr, eq_ℤ}
use moveon.Wheel.Timer.{
  Task, Wheel, update, new_task, slot_of, add_ms_task, turn, is_due, age, due_tasks, process, tick,
  ticks, handed,
}
use moveon.Wheel.Entry.{has_id, has_id-age, has_id-due, Sole, Sole-place, Sole-age, Sole-due}
use moveon.Wheel.Delay.{next_scale, meets, count_after}

-- The pointer is on the wheel, and no task has the id that the next timer gets.
pub record IsReady {T : Type 0} (w : Wheel T) : Type 0 where
  pub low : 1 ≤ w.current_scale
  pub high : w.current_scale ≤ 100
  pub fresh : (slot : ℕ) → has_id (u64 (w.cid + 1)) (w.task_map slot) ≡ false

-- The wheel holds one task with the id of `t`, which is `t`, in the slot.
pub record Keeps {T : Type 0} (w : Wheel T) (slot : ℕ) (t : Task T) : Type 0 where
  pub low : 1 ≤ w.current_scale
  pub high : w.current_scale ≤ 100
  pub indexed : w.id_map t.id ≡ slot
  pub sole : Sole t (w.task_map slot)
  pub nowhere : (other : ℕ) → (slot == other) ≡ false → has_id t.id (w.task_map other) ≡ false

pub update_same {ℓ} : {A : Type ℓ} (f : ℕ → A) (k : ℕ) (v : A) → update f k v k ≡ v
update_same f k v = rw ((==_iff k k).1 refl)

pub update_other {ℓ} :
    {A : Type ℓ} (f : ℕ → A) (k j : ℕ) (v : A) → (k == j) ≡ false → update f k v j ≡ f j
update_other f k j v h = rw h

module _ {T : Type 0} where
  pub add_ms_task-Keeps :
      (ms : ℕ) (f : T) (w : Wheel T)
      → IsReady w
      → Keeps (add_ms_task ms f w).0 (slot_of ms w) (new_task ms f w)
  unfolding add_ms_task
  add_ms_task-Keeps ms f w v = record {
    low = v.low;
    high = v.high;
    indexed = update_same w.id_map _ _;
    sole =
        subst (Sole (new_task ms f w)) (sym (update_same w.task_map (slot_of ms w) _))
          (Sole-place (new_task ms f w) (w.task_map (slot_of ms w)) (v.fresh (slot_of ms w)));
    nowhere = λ other h.
        ap (has_id (u64 (w.cid + 1))) (update_other w.task_map (slot_of ms w) other _ h)
        ∙ v.fresh other;
  }

  -- A tick that moves the pointer to `p`.
  abbrev moved : ℕ → Wheel T → Wheel T
  moved p w = record w {
    current_scale = p;
    task_map = update w.task_map p (map age (w.task_map p));
  }

  tick_lem :
      (w : Wheel T)
      → tick w ≡ (
        moved (next_scale w.current_scale) w,
        due_tasks (w.task_map (next_scale w.current_scale)),
      )
  unfolding tick process turn
  tick_lem w = elim (Bool-cases (w.current_scale == 100)) [
    | inl last ↦ simp last
    | inr more ↦ simp more
  ]

  -- The pointer meets the slot: the task is handed over if it is due, and its count goes down.
  moved_meets :
      (w : Wheel T) (p slot : ℕ) (t : Task T)
      → p ≡ slot
      → 1 ≤ p
      → p ≤ 100
      → Keeps w slot t
      → Keeps (moved p w) slot (age t) × (has_id t.id (due_tasks (w.task_map p)) ≡ is_due t)
  moved_meets w p slot t e low high k =
      subst
        (λ s. Keeps (moved s w) slot (age t) × (has_id t.id (due_tasks (w.task_map s)) ≡ is_due t))
        (sym e)
        (
          record {
            low = omega arith;
            high = omega arith;
            indexed = k.indexed;
            sole = subst (Sole (age t)) (sym (update_same w.task_map slot _)) (Sole-age k.sole);
            nowhere = λ other h.
                ap (has_id t.id) (update_other w.task_map slot other _ h) ∙ k.nowhere other h;
          },
          Sole-due k.sole,
        )

  -- The pointer passes the slot by.
  moved_passes :
      (w : Wheel T) (p slot : ℕ) (t : Task T)
      → (p == slot) ≡ false
      → 1 ≤ p
      → p ≤ 100
      → Keeps w slot t
      → Keeps (moved p w) slot t × (has_id t.id (due_tasks (w.task_map p)) ≡ false)
  moved_passes w p slot t h low high k = (
    record {
      low = low;
      high = high;
      indexed = k.indexed;
      sole = subst (Sole t) (sym (update_other w.task_map p slot _ h)) k.sole;
      nowhere = λ other ne. elim (Bool-cases (p == other)) [
        | inl hit ↦ rw hit (has_id-age t.id (w.task_map p) ∙ k.nowhere p (ground arith))
        | inr miss ↦ rw miss (k.nowhere other ne)
      ];
    },
    has_id-due t.id (w.task_map p) (k.nowhere p (ground arith)),
  )

  abbrev pub counted : Task T → ℤ → Task T
  counted t c = record t { count = c }

  -- What one tick that gives `r` does to the task.
  abbrev Ticked : Wheel T → ℕ → Task T → Wheel T × List (Task T) → Type 0
  Ticked w slot t r =
      let hit = next_scale w.current_scale == slot in
      Keeps r.0 slot (counted t (if hit then decr t.count else t.count))
      × (has_id t.id r.1 ≡ ((hit && eq_ℤ t.count (pos 0)) && t.valid))
      × (r.0.current_scale ≡ next_scale w.current_scale)

  tick-Ticked : (w : Wheel T) (slot : ℕ) (t : Task T) → Keeps w slot t → Ticked w slot t (tick w)
  tick-Ticked w slot t k =
      let p = next_scale w.current_scale in
      let low = k.low in
      let high = k.high in
      let small : p ≤ 100 = ground arith in
      let large : 1 ≤ p = ground arith in
      subst (Ticked w slot t) (sym (tick_lem w)) (elim (Bool-cases (p == slot)) [
        | inl hit ↦
            let (kept, due) = moved_meets w p slot t ((==_iff p slot).0 hit) large small k in
            simp hit (kept, due, refl)
        | inr miss ↦
            let (kept, due) = moved_passes w p slot t miss large small k in
            simp miss (kept, due, refl)
      ])

  -- After `n` ticks the wheel keeps the task with its count run down, and the next tick hands it
  -- over exactly when it is valid and the pointer meets its slot at count 0.
  pub ticks_lem :
      (n : ℕ) (w : Wheel T) (slot : ℕ) (t : Task T)
      → Keeps w slot t
      → Keeps (ticks n w) slot (counted t (count_after n w.current_scale slot t.count))
        × (has_id t.id (handed n w) ≡ (meets n w.current_scale slot t.count && t.valid))
  unfolding ticks handed meets count_after
  ticks_lem zero w slot t k = (k, (tick-Ticked w slot t k).1)
  ticks_lem (suc n) w slot t k =
      let (kept, _, scale) = tick-Ticked w slot t k in
      let c = if next_scale w.current_scale == slot then decr t.count else t.count in
      subst
        (λ s.
          Keeps (ticks n (tick w).0) slot (counted t (count_after n s slot c))
          × (has_id t.id (handed n (tick w).0) ≡ (meets n s slot c && t.valid)))
        scale (ticks_lem n (tick w).0 slot (counted t c) kept)
