-- ===== src/Examples/Systems.antt =====
-- The theorems on the thread pool, the time wheel, the server, the client and the tool, applied.
use moveon.Base.{
  none, some, ℕ, ◌+◌, ◌≡◌, ◌≤◌, ◌↔◌, refl, List, [], ◌∷◌, ◌++◌, true, false, codes, arith, length,
  ◌==◌, map,
}
use moveon.Base.Int.{pos}
use moveon.Pool.Queue.{
  TaskType, normal_task, timer_task, highest_priority_task, get_task, new_pool, start_threads,
}
use moveon.Pool.World.{
  World, Event, initialises, adds, wakes, finishes, releases, new_world, add_task, release_waits,
}
use moveon.Pool.World
use moveon.Pool.Order.{pending}
use moveon.Pool.Accounts.{added, count_if, tasks_conserved}
use moveon.Pool.Priority.{add_events, wakes-by_priority}
use moveon.Pool.Capacity.{
  executed-le-nprocs, never_direct, release_waits_iff, spent_forever, IsSpent,
}
use moveon.Pool.Laws.{total, is_running}
use moveon.Wheel.Timer.{new_wheel, add_ms_task, cancel_timer, handed, ticks}
use moveon.Wheel.Entry.{has_id}
use moveon.Wheel.Laws.{IsReady}
use moveon.Wheel.Timing.{add_ms_task-handed, cancel_timer-handed}
use moveon.Client.Metadata.{Metadata}
use moveon.Client.Endpoint
use moveon.Client.Endpoint.{Endpoint, new_endpoint, connect, get_metadata, connects, sends, fails}
use moveon.Client.Connections.{connect-get_metadata}
use moveon.CmdTool.Laws.{Setting, sets_dir, sets_file}
use moveon.Server.State.{Connection, new_server}
use moveon.Server.Laws.{opened, closed, handle_all-is_conn_valid, Handled}

-- A pool whose queues hold a normal task 10, a timer task 20 and an urgent task 30.
abbrev filled_events : List (Event ℕ)
filled_events =
    initialises ∷ adds normal_task 10 ∷ adds timer_task 20 ∷ adds highest_priority_task 30 ∷ []

-- Two workers take a task each, one returns, and the pool is released.
abbrev busy_events : List (Event ℕ)
busy_events = filled_events ++ (wakes 0 ∷ wakes 1 ∷ finishes 0 ∷ releases ∷ [])

tasks_conserved_example :
    let w = World.run 2 (new_world ℕ) busy_events in
    count_if (λ t. t == 10) (added busy_events)
    ≡ count_if (λ t. t == 10) (pending w.pool)
      + count_if (λ t. t == 10) w.executed
      + count_if (λ t. t == 10) w.direct
      + count_if (λ t. t == 10) w.dropped
tasks_conserved_example = tasks_conserved (λ t. t == 10) 2 busy_events

executed-le-nprocs_example : length (World.run 2 (new_world ℕ) busy_events).executed ≤ 2
executed-le-nprocs_example = executed-le-nprocs 2 busy_events

abbrev three_tasks : List (TaskType × ℕ)
three_tasks = (normal_task, 10) ∷ (timer_task, 20) ∷ (highest_priority_task, 30) ∷ []

-- Three workers, of which two wake up.
wakes-by_priority_example :
    let w =
      World.run 3
        (new_world ℕ)
        (initialises ∷ (add_events three_tasks ++ map wakes (2 ∷ 0 ∷ []))) in
    (w.executed ≡ 30 ∷ 20 ∷ []) × (pending w.pool ≡ 10 ∷ [])
wakes-by_priority_example =
    wakes-by_priority 3 three_tasks (2 ∷ 0 ∷ []) (omega arith, (omega arith, tt))
      ((refl, tt), (tt, tt))

-- After those events.
abbrev busy : World ℕ
busy = World.run 2 (new_world ℕ) busy_events

busy-inited : busy.pool.inited ≡ true
unfolding World.run World.step World.init_thread_pool World.add_task World.wake World.wake_one
    World.evaluate World.finish World.finish_one World.request_exit World.new_world new_pool
    get_task start_threads
busy-inited = refl

busy-IsSpent : IsSpent busy
unfolding World.run World.step World.init_thread_pool World.add_task World.wake World.wake_one
    World.evaluate World.finish World.finish_one World.request_exit World.new_world new_pool
    get_task start_threads
busy-IsSpent = record { is_inited = refl; all_used = refl }

never_direct_example :
    (busy.pool.current_run_thread ≡ pos (total is_running busy.workers))
    × ((add_task highest_priority_task 40 busy).direct ≡ busy.direct)
    × ((add_task highest_priority_task 40 busy).pool.hpest_queue
        ≡ busy.pool.hpest_queue ++ (40 ∷ []))
never_direct_example = never_direct 2 busy_events 40 busy-inited

release_waits_iff_example : (release_waits busy ≡ false) ↔ (total is_running busy.workers ≡ 0)
release_waits_iff_example = release_waits_iff 2 busy_events

spent_forever_example :
    (World.run 2 busy (adds normal_task 50 ∷ initialises ∷ wakes 0 ∷ wakes 1 ∷ [])).executed
    ≡ busy.executed
spent_forever_example =
    spent_forever 2 busy (adds normal_task 50 ∷ initialises ∷ wakes 0 ∷ wakes 1 ∷ []) busy-IsSpent

ready : IsReady (new_wheel ℕ)
unfolding new_wheel
ready = record { low = omega arith; high = omega arith; fresh = λ slot. refl }

-- The pointer starts at 1, so a timer of 5 ms is handed over by the fifth tick.
add_ms_task-handed_example :
    let (w', id) = add_ms_task 5 10 (new_wheel ℕ) in has_id id (handed 4 w') ≡ true
unfolding new_wheel
add_ms_task-handed_example = add_ms_task-handed 5 10 (new_wheel ℕ) 4 ready

cancel_timer-handed_example :
    let (w', id) = add_ms_task 5 10 (new_wheel ℕ) in
    let (w'', answer) = cancel_timer id (ticks 2 w') in
    (answer ≡ true) × (has_id id (handed 2 w'') ≡ false)
unfolding new_wheel
cancel_timer-handed_example = cancel_timer-handed 5 10 (new_wheel ℕ) 2 2 ready

abbrev peer : Connection
peer = record { address = 100; remote = codes "peer" }

handle_all-is_conn_valid_example : Handled 100 (opened peer ∷ closed peer ∷ []) new_server
handle_all-is_conn_valid_example =
    handle_all-is_conn_valid 100 (opened peer ∷ closed peer ∷ []) new_server

-- A connection before, and a message and a failure after.
connect-get_metadata_example :
    let e = Endpoint.run (connects (some 7) (codes "ws://a") ∷ []) new_endpoint in
    let (e', id) = connect (some 8) (codes "ws://b") e in
    (get_metadata id e ≡ none)
    × (d : Metadata) × (get_metadata id
          (Endpoint.run (sends (pos 1) (codes "hi") true ∷ fails 1 none ∷ []) e')
        ≡ some d)
    × (pos d.id ≡ id)
    × (d.hdl ≡ 8)
    × (d.uri ≡ codes "ws://b")
connect-get_metadata_example =
    connect-get_metadata (connects (some 7) (codes "ws://a") ∷ [])
      (sends (pos 1) (codes "hi") true ∷ fails 1 none ∷ []) 8 (codes "ws://b")

-- An endpoint with one connection, whose id is 0.
abbrev one_connection : Endpoint
one_connection = Endpoint.run (connects (some 7) (codes "ws://a") ∷ []) new_endpoint

abbrev settings : List Setting
settings = sets_dir (codes "a") ∷ sets_file (codes "x.json") ∷ sets_dir (codes "b") ∷ []
