-- ===== src/Pool/Progress.antt =====
-- What the workers do with the tasks that they can take.
use moveon.Base.{
  ℕ, zero, suc, ◌≡◌, refl, sym, ap, ◌∙◌, List, [], ◌∷◌, ◌++◌, map, append-nil, append_assoc, Option,
  none, some, false, ◌==◌, All, take, drop, length, get_elem?, set, arith,
}
use moveon.Pool.Queue.{Pool, get_task}
use moveon.Pool.Order.{pending, Takes, get_task-Takes}
use moveon.Pool.World.{World, Worker, waiting, running, wakes, evaluate, wake, wake_one, step, run}

-- Different numbers.
abbrev pub Differ : List ℕ → Type 0
Differ [] = Unit
Differ (i ∷ is) = All (λ j. (i == j) ≡ false) is × Differ is

module _ {T : Type 0} where
  -- The workers all wait.
  abbrev pub AllWait : List ℕ → List (Worker T) → Type 0
  AllWait is ws = All (λ i. get_elem? ws i ≡ some waiting) is

  get_elem?-set_other :
      (ws : List (Worker T)) (i j : ℕ) (v : Worker T)
      → (i == j) ≡ false
      → get_elem? (set ws i v) j ≡ get_elem? ws j
  get_elem?-set_other [] i j v h = refl
  get_elem?-set_other (w ∷ ws) zero zero v h = cc
  get_elem?-set_other (w ∷ ws) zero (suc j) v h = refl
  get_elem?-set_other (w ∷ ws) (suc i) zero v h = refl
  get_elem?-set_other (w ∷ ws) (suc i) (suc j) v h = get_elem?-set_other ws i j v (ground arith)

  set-AllWait :
      (ws : List (Worker T)) (i : ℕ) (v : Worker T) (is : List ℕ)
      → All (λ j. (i == j) ≡ false) is
      → AllWait is ws
      → AllWait is (set ws i v)
  set-AllWait ws i v [] d h = tt
  set-AllWait ws i v (j ∷ is) (n, d) (e, h) =
      (get_elem?-set_other ws i j v n ∙ e, set-AllWait ws i v is d h)

  -- From `w`, as many tasks as there are wakes are begun, the first that wait.
  abbrev pub Served : ℕ → World T → World T → Type 0
  Served n w w' =
      (w'.executed ≡ w.executed ++ take n (pending w.pool))
      × (pending w'.pool ≡ drop n (pending w.pool))

  drop-nil : (n : ℕ) → drop {A = T} n [] ≡ []
  drop-nil zero = refl
  drop-nil (suc n) = refl

  take-nil : (n : ℕ) → take {A = T} n [] ≡ []
  take-nil zero = refl
  take-nil (suc n) = refl

  Served-trans : (n : ℕ) (w v u : World T) → Served 1 w v → Served n v u → Served (suc n) w u
  Served-trans n w v u (e1, p1) (e2, p2) = at (pending w.pool) e1 p1
    where
      at :
          (ts : List T)
          → v.executed ≡ w.executed ++ take 1 ts
          → pending v.pool ≡ drop 1 ts
          → (u.executed ≡ w.executed ++ take (suc n) ts) × (pending u.pool ≡ drop (suc n) ts)
      at [] a b = (
        e2
            ∙ ap (λ xs. v.executed ++ take n xs) b
            ∙ ap (λ xs. v.executed ++ xs) (take-nil n)
            ∙ append-nil v.executed
            ∙ a,
        p2 ∙ ap (drop n) b ∙ drop-nil n,
      )
      at (t ∷ ts) a b = (
        e2
            ∙ ap (λ xs. v.executed ++ take n xs) b
            ∙ ap (λ xs. xs ++ take n ts) a
            ∙ append_assoc w.executed (t ∷ []) (take n ts),
        p2 ∙ ap (drop n) b,
      )

  -- A wake of a waiting worker, with what `get_task` gave.
  unfoldable pub Woken : ℕ → List ℕ → World T → World T → Type 0
  Woken i is w v = (v.pool.exit ≡ false) × AllWait is v.workers × Served 1 w v

  evaluate-Woken :
      (i : ℕ) (is : List ℕ) (w : World T) (o : Option (T × Pool T))
      → Takes w.pool o
      → w.pool.exit ≡ false
      → AllWait is w.workers
      → All (λ j. (i == j) ≡ false) is
      → Woken i is w (evaluate i w o)
  unfolding evaluate Woken
  evaluate-Woken i is w none t on free n = simp on (
    refl,
    free,
    (
      sym (append-nil w.executed) ∙ ap (λ xs. w.executed ++ take 1 xs) (sym t),
      t ∙ ap (drop 1) (sym t),
    ),
  )
  evaluate-Woken i is w (some (f, q)) t on free n = simp on (
    t.exit ∙ on,
    set-AllWait w.workers i (running f) is n free,
    (ap (λ xs. w.executed ++ take 1 xs) (sym t.order), ap (drop 1) (sym t.order)),
  )

  pub wake-Woken :
      (i : ℕ) (is : List ℕ) (w : World T)
      → w.pool.exit ≡ false
      → AllWait (i ∷ is) w.workers
      → All (λ j. (i == j) ≡ false) is
      → Woken i is w (wake i w)
  unfolding wake wake_one
  wake-Woken i is w on (e, free) n =
      simp e (evaluate-Woken i is w (get_task w.pool) (get_task-Takes w.pool) on free n)

  pub run-Served :
      (nprocs : ℕ) (is : List ℕ) (w : World T)
      → w.pool.exit ≡ false
      → AllWait is w.workers
      → Differ is
      → Served (length is) w (run nprocs w (map wakes is))
  unfolding run step Woken
  run-Served nprocs [] w on free d = (sym (append-nil w.executed), refl)
  run-Served nprocs (i ∷ is) w on free (n, d) =
      let (on', free', one) = wake-Woken i is w on free n in
      Served-trans (length is) w (wake i w) (run nprocs (wake i w) (map wakes is)) one
        (run-Served nprocs is (wake i w) on' free' d)
