-- ===== src/Pool/Laws.antt =====
-- What holds of the pool over every interleaving.
use moveon.Base.{
  ℕ, zero, suc, ◌+◌, ◌≤◌, ◌≡◌, refl, sym, ap, ◌∙◌, List, [], ◌∷◌, ◌++◌, Option, none, some, true,
  false, arith, get_elem?, set, length, length-append, Bool-cases, inl, inr,
}
use moveon.Base.Int.{pos, negsuc, incr, decr}
use moveon.Pool.Queue.{
  Pool, TaskType, timer_task, normal_task, highest_priority_task, get_task, start_threads,
}
use moveon.Pool.Order.{Takes, get_task-Takes}
use moveon.Pool.World.{
  wake_one, finish_one, Worker, waiting, running, finished, World, Event, initialises, adds, wakes,
  finishes, releases, new_world, fresh_workers, init_thread_pool, add_task, evaluate, wake, finish,
  request_exit, step, run,
}

module _ {T : Type 0} where
  abbrev pub is_running : Worker T → ℕ
  is_running (running f) = 1
  is_running _ = 0

  abbrev pub is_used : Worker T → ℕ
  is_used waiting = 0
  is_used _ = 1

  abbrev pub total : (Worker T → ℕ) → List (Worker T) → ℕ
  total f [] = 0
  total f (w ∷ ws) = f w + total f ws

  pub total-set :
      (f : Worker T → ℕ) (ws : List (Worker T)) (i : ℕ) (v w : Worker T)
      → get_elem? ws i ≡ some v
      → (total f (set ws i w) + f v ≡ total f ws + f w) × (length (set ws i w) ≡ length ws)
  total-set f [] i v w e = cc
  total-set f (x ∷ ws) zero v w e = ground arith
  total-set f (x ∷ ws) (suc i) v w e = ground (arith, total-set f ws i v w e)

  pub total_used_le : (ws : List (Worker T)) → total is_used ws ≤ length ws
  total_used_le [] = omega arith
  total_used_le (waiting ∷ ws) = omega (arith, total_used_le ws)
  total_used_le (running f ∷ ws) = omega (arith, total_used_le ws)
  total_used_le (finished ∷ ws) = omega (arith, total_used_le ws)

fresh_lem :
    (T : Type 0) (n : ℕ)
    → (length (fresh_workers {T = T} n) ≡ n)
      × (total is_running (fresh_workers {T = T} n) ≡ 0)
      × (total is_used (fresh_workers {T = T} n) ≡ 0)
fresh_lem T zero = omega arith
fresh_lem T (suc n) = omega (arith, fresh_lem T n)

pub start_threads_lem : (n : ℕ) → start_threads n ≡ (n, negsuc 0)
unfolding start_threads
start_threads_lem zero = refl
start_threads_lem (suc n) = rw (start_threads_lem n)

pub record Inv {T : Type 0} (nprocs : ℕ) (w : World T) : Type 0 where
  pub counted : w.pool.current_run_thread ≡ pos (total is_running w.workers)
  pub used : length w.executed ≤ total is_used w.workers
  pub crew : length w.workers ≤ nprocs
  pub no_crew : w.pool.inited ≡ false → w.workers ≡ []
  pub num_before : w.pool.inited ≡ false → w.pool.thread_num ≡ pos 0
  pub num_after : w.pool.inited ≡ true → w.pool.thread_num ≡ negsuc 0

module _ {T : Type 0} (nprocs : ℕ) where
  pub new_world-Inv : Inv nprocs (new_world T)
  unfolding new_world
  new_world-Inv = ground arith

  init-Inv : (w : World T) → Inv nprocs w → Inv nprocs (init_thread_pool nprocs w)
  unfolding init_thread_pool
  init-Inv w v = elim (Bool-cases w.pool.inited) [
    | inl e ↦ simp e v
    | inr e ↦
        let none_yet : w.workers ≡ [] = v.no_crew e in
        let fresh = fresh_lem T nprocs in
        simp (e, start_threads_lem nprocs, none_yet)
          (record {
            counted = v.counted ∙ ap pos (omega (arith, ap (total is_running) none_yet));
            used = omega (arith, v.used, ap (total is_used) none_yet);
            crew = omega arith;
            no_crew = λ h. cc;
            num_before = λ h. cc;
            num_after = λ h. refl;
          })
  ]

  add_task-Inv : (tt : TaskType) (f : T) (w : World T) → Inv nprocs w → Inv nprocs (add_task tt f w)
  unfolding add_task
  add_task-Inv highest_priority_task f w v = ground arith
  add_task-Inv normal_task f w v = ground arith
  add_task-Inv timer_task f w v = ground arith

  -- A step of worker `i` from `old` to `new`, with the pool's counter in step.
  replace-Inv :
      (w : World T) (i : ℕ) (old new : Worker T) (p : Pool T) (xs ds : List T)
      → get_elem? w.workers i ≡ some old
      → p.inited ≡ w.pool.inited
      → p.thread_num ≡ w.pool.thread_num
      → p.current_run_thread ≡ pos (total is_running (set w.workers i new))
      → length xs + is_used old ≤ length w.executed + is_used new
      → Inv nprocs w
      → Inv nprocs
          (record w { pool = p; workers = set w.workers i new; executed = xs; dropped = ds })
  replace-Inv w i old new p xs ds e same_inited same_num count more v =
      let (used, same_length) = total-set is_used w.workers i old new e in
      record {
        counted = count;
        used = omega (arith, v.used);
        crew = omega (arith, v.crew);
        no_crew = λ h. ap (λ l. set l i new) (v.no_crew (sym same_inited ∙ h));
        num_before = λ h. same_num ∙ v.num_before (sym same_inited ∙ h);
        num_after = λ h. same_num ∙ v.num_after (sym same_inited ∙ h);
      }

  evaluate-Inv :
      (w : World T) (i : ℕ) (o : Option (T × Pool T))
      → Takes w.pool o
      → get_elem? w.workers i ≡ some waiting
      → Inv nprocs w
      → Inv nprocs (evaluate i w o)
  unfolding evaluate
  evaluate-Inv w i none t e v = elim (Bool-cases w.pool.exit) [
    | inl out ↦
        let count = total-set is_running w.workers i waiting finished e in
        simp out (
          replace-Inv w i waiting finished w.pool w.executed w.dropped e refl refl
            (v.counted ∙ ap pos (omega arith)) (omega arith) v)
    | inr on ↦ simp on v
  ]
  evaluate-Inv w i (some (f, p)) t e v = elim (Bool-cases w.pool.exit) [
    | inl out ↦
        let count = total-set is_running w.workers i waiting finished e in
        simp out (
          replace-Inv w i waiting finished p w.executed (w.dropped ++ (f ∷ [])) e t.inited
            t.thread_num (t.current ∙ v.counted ∙ ap pos (omega arith)) (omega arith) v)
    | inr on ↦
        let count = total-set is_running w.workers i waiting (running f) e in
        simp on (
          replace-Inv w i waiting (running f)
            (record p { current_run_thread = incr p.current_run_thread }) (w.executed ++ (f ∷ []))
            w.dropped e t.inited t.thread_num
            (ap incr (t.current ∙ v.counted) ∙ ap pos (omega arith))
            (omega (arith, length-append w.executed (f ∷ []))) v)
  ]

  wake-Inv : (w : World T) (i : ℕ) → Inv nprocs w → Inv nprocs (wake i w)
  unfolding wake
  wake-Inv w i v = at (get_elem? w.workers i) refl
    where
      at : (o : Option (Worker T)) → get_elem? w.workers i ≡ o → Inv nprocs (wake_one i w o)
      at none e = unfold wake_one in v
      at (some waiting) e =
          unfold wake_one in evaluate-Inv w i (get_task w.pool) (get_task-Takes w.pool) e v
      at (some (running f)) e = unfold wake_one in v
      at (some finished) e = unfold wake_one in v

  finish-Inv : (w : World T) (i : ℕ) → Inv nprocs w → Inv nprocs (finish i w)
  unfolding finish
  finish-Inv w i v = at (get_elem? w.workers i) refl
    where
      at : (o : Option (Worker T)) → get_elem? w.workers i ≡ o → Inv nprocs (finish_one i w o)
      at none e = unfold finish_one in v
      at (some waiting) e = unfold finish_one in v
      at (some finished) e = unfold finish_one in v
      at (some (running f)) e =
          let (count, _) = total-set is_running w.workers i (running f) finished e in
          let one_more : total is_running w.workers
              ≡ suc (total is_running (set w.workers i finished)) =
            omega (arith, count) in
          unfold finish_one in
          replace-Inv w i (running f) finished
            (record (w.pool) { current_run_thread = decr w.pool.current_run_thread }) w.executed
            w.dropped e refl refl (ap decr (v.counted ∙ ap pos one_more)) (omega arith) v

  step-Inv : (w : World T) (e : Event T) → Inv nprocs w → Inv nprocs (step nprocs w e)
  unfolding step request_exit
  step-Inv w initialises v = init-Inv w v
  step-Inv w (adds tt f) v = add_task-Inv tt f w v
  step-Inv w (wakes i) v = wake-Inv w i v
  step-Inv w (finishes i) v = finish-Inv w i v
  step-Inv w releases v = record {
    counted = v.counted;
    used = v.used;
    crew = v.crew;
    no_crew = v.no_crew;
    num_before = v.num_before;
    num_after = v.num_after;
  }

  pub run-Inv : (w : World T) (es : List (Event T)) → Inv nprocs w → Inv nprocs (run nprocs w es)
  unfolding run
  run-Inv w [] v = v
  run-Inv w (e ∷ es) v = run-Inv (step nprocs w e) es (step-Inv w e v)
