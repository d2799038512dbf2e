-- ===== src/Wheel/Entry.antt =====
-- One timer among the tasks of a slot: what the loops of time_wheel do to it.
use moveon.Base.{
  ℕ, ◌≡◌, refl, ap, ◌∙◌, List, [], ◌∷◌, ◌++◌, map, Bool, false, not, ◌||◌, ◌==◌, arith,
  if◌then◌else◌, Bool-cases, inl, inr, ==_iff,
}
use moveon.Base.Int.{is_negative}
use moveon.Wheel.Timer.{Task, place, cancel_in, is_due, age, due_tasks}

module _ {T : Type 0} where
  abbrev pub has_id : ℕ → List (Task T) → Bool
  has_id k [] = false
  has_id k (i ∷ tasks) = i.id == k || has_id k tasks

  has_id-append :
      (k : ℕ) (xs ys : List (Task T)) → has_id k (xs ++ ys) ≡ (has_id k xs || has_id k ys)
  has_id-append k [] ys = refl
  has_id-append k (x ∷ xs) ys = ground (arith, has_id-append k xs ys)

  pub has_id-age : (k : ℕ) (xs : List (Task T)) → has_id k (map age xs) ≡ has_id k xs
  has_id-age k [] = refl
  has_id-age k (x ∷ xs) = ground (arith, has_id-age k xs)

  pub has_id-due :
      (k : ℕ) (xs : List (Task T)) → has_id k xs ≡ false → has_id k (due_tasks xs) ≡ false
  unfolding due_tasks
  has_id-due k [] h = refl
  has_id-due k (x ∷ xs) h = ground (arith, has_id-due k xs)

  -- The slot holds the one task `t` with its id.
  pub data Sole (t : Task T) : List (Task T) → Type 0 where
    here : (xs : List (Task T)) → has_id t.id xs ≡ false → Sole t (t ∷ xs)
    there : (x : Task T) (xs : List (Task T)) → (x.id == t.id) ≡ false → Sole t xs → Sole t (x ∷ xs)

  pub Sole-place : (t : Task T) (xs : List (Task T)) → has_id t.id xs ≡ false → Sole t (place t xs)
  unfolding place
  Sole-place t [] h = here [] refl
  Sole-place t (x ∷ xs) h = elim (Bool-cases (is_negative x.count)) [
    | inl past ↦ simp past (here xs (ground arith))
    | inr alive ↦ simp alive (there x (place t xs) (ground arith) (Sole-place t xs (ground arith)))
  ]

  pub Sole-age : {t : Task T} {xs : List (Task T)} → Sole t xs → Sole (age t) (map age xs)
  Sole-age {t} (here xs h) = here (map age xs) (has_id-age t.id xs ∙ h)
  Sole-age (there x xs h s) = there (age x) (map age xs) h (Sole-age s)

  -- The task is handed over exactly when it is due.
  pub Sole-due :
      {t : Task T} {xs : List (Task T)} → Sole t xs → has_id t.id (due_tasks xs) ≡ is_due t
  unfolding due_tasks
  Sole-due {t} (here xs h) = ground (arith, has_id-due t.id xs h)
  Sole-due {t} (there x xs h s) = ground (arith, Sole-due s)

  -- `cancel_timer` answers whether the count is not past, and then takes the mark `valid` away.
  abbrev pub cancelled : Task T → Task T
  cancelled t = if is_negative t.count then t else record t { valid = false }

  pub cancelled-id : (t : Task T) → (cancelled t).id ≡ t.id
  cancelled-id t = ground arith

  pub Sole-cancel :
      {t : Task T} {xs : List (Task T)}
      → Sole t xs
      → Sole (cancelled t) (cancel_in t.id xs).0
        × ((cancel_in t.id xs).1 ≡ not (is_negative t.count))
  unfolding cancel_in
  Sole-cancel {t} (here xs h) = elim (Bool-cases (is_negative t.count)) [
    | inl past ↦ simp (past, (==_iff t.id t.id).1 refl) (here xs h, refl)
    | inr alive ↦ simp (alive, (==_iff t.id t.id).1 refl) (here xs h, refl)
  ]
  Sole-cancel {t} (there x xs h s) =
      let (rest, done) = Sole-cancel s in
      simp h (there x (cancel_in t.id xs).0 (ap (λ n. x.id == n) (cancelled-id t) ∙ h) rest, done)
