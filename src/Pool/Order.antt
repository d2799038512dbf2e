-- ===== src/Pool/Order.antt =====
-- In which order `get_task` takes the tasks.
use moveon.Base.{◌≡◌, refl, List, [], ◌∷◌, ◌++◌, Option, none, some}
use moveon.Pool.Queue.{Pool, take_normal, take_timer, take_hpest, get_task}

module _ {T : Type 0} where
  -- All tasks that wait, in the order in which they will be taken.
  abbrev pub pending : Pool T → List T
  pending p = p.hpest_queue ++ (p.timer_queue ++ p.normal_queue)

  -- `q` is `p` less its first task `f`.
  pub record IsTaken (p : Pool T) (f : T) (q : Pool T) : Type 0 where
    pub order : pending p ≡ f ∷ pending q
    pub current : q.current_run_thread ≡ p.current_run_thread
    pub thread_num : q.thread_num ≡ p.thread_num
    pub exit : q.exit ≡ p.exit
    pub inited : q.inited ≡ p.inited

  abbrev pub Takes : Pool T → Option (T × Pool T) → Type 0
  Takes p none = pending p ≡ []
  Takes p (some (f, q)) = IsTaken p f q

  take_normal-Takes :
      (p : Pool T) (ns : List T)
      → p.hpest_queue ≡ []
      → p.timer_queue ≡ []
      → p.normal_queue ≡ ns
      → Takes p (take_normal p ns)
  take_normal-Takes p [] h t n = simp (h, t, n)
  take_normal-Takes p (x ∷ ns) h t n = record {
    order = simp (h, t, n);
    current = refl;
    thread_num = refl;
    exit = refl;
    inited = refl;
  }

  take_timer-Takes :
      (p : Pool T) (ts : List T)
      → p.hpest_queue ≡ []
      → p.timer_queue ≡ ts
      → Takes p (take_timer p ts)
  take_timer-Takes p [] h t = take_normal-Takes p p.normal_queue h t refl
  take_timer-Takes p (x ∷ ts) h t = record {
    order = simp (h, t);
    current = refl;
    thread_num = refl;
    exit = refl;
    inited = refl;
  }

  take_hpest-Takes : (p : Pool T) (hs : List T) → p.hpest_queue ≡ hs → Takes p (take_hpest p hs)
  take_hpest-Takes p [] h = take_timer-Takes p p.timer_queue h refl
  take_hpest-Takes p (x ∷ hs) h = record {
    order = simp h;
    current = refl;
    thread_num = refl;
    exit = refl;
    inited = refl;
  }

  pub get_task-Takes : (p : Pool T) → Takes p (get_task p)
  unfolding get_task
  get_task-Takes p = take_hpest-Takes p p.hpest_queue refl
