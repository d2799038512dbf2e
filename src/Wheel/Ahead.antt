-- ===== src/Wheel/Ahead.antt =====
-- The turns and the timers that lie ahead, and what one moment does to their number.
use moveon.Base.{
  ℕ, ◌+◌, ◌≤◌, ◌<◌, ◌≡◌, sym, ap, ◌∙◌, List, [], ◌∷◌, ◌++◌, map, Bool, false, ltb, arith,
  Bool-cases, inl, inr,
}
use moveon.Pool.Queue.{TaskType, highest_priority_task}
use moveon.Pool.World.{World, add_task}
use moveon.Pool.Accounts.{count_if, count_if-append, known, add_task-known}
use moveon.Wheel.Timer.{add_ms_task, cancel_timer, tick}
use moveon.Wheel.Start.{Job, turn_and_process, instance_call, init_wheel}
use moveon.Wheel.Clock.{
  Clock, asks, turns, timers, cancels, is_turn, begun, turn_once, wake_up, moment,
}
use moveon.Wheel.Soon.{
  is_timer, soon, jobs_of, due_tasks-soon, one_ms, soon-add_ms_task, soon-cancel_timer, tick-first,
  tick-inited, jobs-is_turn, post_due-known,
}

module _ {T : Type 0} (q : T → Bool) where
  -- The tasks that satisfy `p`, with those that sleeping threads will post.
  abbrev pub ahead : (Job T → Bool) → Clock T → ℕ
  ahead p c = known p c.pool + count_if p (map (λ s. s.1) c.sleeping)

  -- Where the timers of one millisecond so far number at most `n`.
  pub record Inv (n : ℕ) (c : Clock T) : Type 0 where
    pub once : ahead is_turn c ≤ 1
    pub idle : c.wheel.inited ≡ false → ahead is_turn c ≡ 0
    pub few : ahead (is_timer q) c ≤ n
    pub most : c.turned ≤ 1
    pub start : c.turned ≡ 0 → c.wheel.current_scale ≡ 1
    pub near : c.turned ≡ 0 → ahead (is_timer q) c + soon q (c.wheel.task_map 2) ≤ n

  -- A change that keeps the number of turns and of timers, and the wheel.
  pub Inv-same :
      (n : ℕ) (c : Clock T) (w : World (Job T)) (s : List (TaskType × Job T))
      → let c' = record c { pool = w; sleeping = s } in
        ahead is_turn c' ≡ ahead is_turn c
        → ahead (is_timer q) c' ≡ ahead (is_timer q) c
        → Inv n c
        → Inv n c'
  Inv-same n c w s same_turns same_timers v = record {
    once = omega (arith, v.once);
    idle = λ h. omega (arith, v.idle h);
    few = omega (arith, v.few);
    most = v.most;
    start = v.start;
    near = λ h. omega (arith, v.near h);
  }

  -- The same for the pool alone.
  pub Inv-pool :
      (n : ℕ) (c : Clock T) (w : World (Job T))
      → ((p : Job T → Bool) → known p w ≡ known p c.pool)
      → Inv n c
      → Inv n (record c { pool = w })
  Inv-pool n c w same =
      Inv-same n c w c.sleeping (omega (arith, same is_turn)) (omega (arith, same (is_timer q)))

  begun-known : (w : World (Job T)) → begun w ≤ known is_turn w
  begun-known w = omega arith

  pub wake_up-Inv :
      (n : ℕ) (c : Clock T) (s : List (TaskType × Job T))
      → c.sleeping ≡ s
      → Inv n c
      → Inv n (wake_up c s)
  unfolding wake_up
  wake_up-Inv n c [] e v = v
  wake_up-Inv n c ((tt, job) ∷ rest) e v =
      let kept : (p : Job T → Bool) → ahead p (wake_up c ((tt, job) ∷ rest)) ≡ ahead p c = λ p.
        omega (
          arith,
          ap (λ s. count_if p (map (λ t. t.1) s)) e,
          add_task-known p tt job c.pool,
          count_if-append p (job ∷ []) (map (λ t. t.1) rest),
        ) in
      Inv-same n c (add_task tt job c.pool) rest (kept is_turn) (kept (is_timer q)) v

  pub turn_once-Inv :
      (n : ℕ) (c : Clock T) → c.turned < begun c.pool → Inv n c → Inv n (turn_once c)
  unfolding turn_once
  turn_once-Inv n c more v =
      let none : c.turned ≡ 0 = omega (arith, v.once, begun-known c.pool) in
      let due = (tick c.wheel).1 in
      let posted_turns = post_due-known is_turn due c.pool in
      let posted_timers = post_due-known (is_timer q) due c.pool in
      let these =
        ap (λ ts. count_if (is_timer q) (jobs_of ts)) (tick-first c.wheel (v.start none)) in
      record {
        once = omega (arith, v.once, jobs-is_turn due);
        idle = λ h. omega (arith, v.idle (sym (tick-inited c.wheel) ∙ h), jobs-is_turn due);
        few = omega (arith, v.near none, due_tasks-soon q (c.wheel.task_map 2));
        most = omega arith;
        start = λ h. absurd (omega arith);
        near = λ h. absurd (omega arith);
      }

  tasks-append :
      (p : Job T → Bool) (xs ys : List (TaskType × Job T))
      → count_if p (map (λ s. s.1) (xs ++ ys))
        ≡ count_if p (map (λ s. s.1) xs) + count_if p (map (λ s. s.1) ys)
  tasks-append p [] ys = omega arith
  tasks-append p (x ∷ xs) ys = ground (arith, tasks-append p xs ys)

  pub asks-Inv : (nprocs n : ℕ) (c : Clock T) → Inv n c → Inv n (moment nprocs c asks)
  unfolding moment instance_call init_wheel
  asks-Inv nprocs n c v = elim (Bool-cases c.wheel.inited) [
    | inl old ↦ simp old (
        Inv-same n c c.pool (c.sleeping ++ []) (omega (arith, tasks-append is_turn c.sleeping []))
          (omega (arith, tasks-append (is_timer q) c.sleeping [])) v)
    | inr fresh ↦ simp fresh (
        let first : List (TaskType × Job T) = (highest_priority_task, turn_and_process) ∷ [] in
        let more = tasks-append is_turn c.sleeping first in
        let same = tasks-append (is_timer q) c.sleeping first in
        record {
          once = omega (arith, v.idle fresh);
          idle = λ h. cc h;
          few = omega (arith, v.few);
          most = v.most;
          start = v.start;
          near = λ h. omega (arith, v.near h);
        })
  ]

  pub Inv-mono : (m n : ℕ) (c : Clock T) → n ≤ m → Inv n c → Inv m c
  Inv-mono m n c le v = record {
    once = v.once;
    idle = v.idle;
    few = omega (arith, v.few);
    most = v.most;
    start = v.start;
    near = λ h. omega (arith, v.near h);
  }

  pub turns-Inv : (nprocs n : ℕ) (c : Clock T) → Inv n c → Inv n (moment nprocs c turns)
  unfolding moment
  turns-Inv nprocs n c v = elim (Bool-cases (ltb c.turned (begun c.pool))) [
    | inl more ↦ simp more (turn_once-Inv n c (ground arith) v)
    | inr none ↦ simp none v
  ]

  pub timers-Inv :
      (nprocs n ms : ℕ) (f : T) (c : Clock T)
      → Inv n c
      → Inv (n + count_if q (one_ms (timers ms f ∷ []))) (moment nprocs c (timers ms f))
  unfolding moment
  timers-Inv nprocs n ms f c v = record {
    once = v.once;
    idle = λ h. v.idle (unfold add_ms_task in h);
    few = omega (arith, v.few);
    most = v.most;
    start = λ h. unfold add_ms_task in v.start h;
    near = λ h. omega (arith, v.near h, soon-add_ms_task q ms f c.wheel (v.start h));
  }

  pub cancels-Inv : (nprocs n id : ℕ) (c : Clock T) → Inv n c → Inv n (moment nprocs c (cancels id))
  unfolding moment
  cancels-Inv nprocs n id c v = record {
    once = v.once;
    idle = λ h. v.idle (unfold cancel_timer in h);
    few = v.few;
    most = v.most;
    start = λ h. unfold cancel_timer in v.start h;
    near = λ h. omega (arith, v.near h, soon-cancel_timer q id c.wheel);
  }
