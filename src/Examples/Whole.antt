-- ===== src/Examples/Whole.antt =====
-- The whole system: a service starts, a connection opens, a message comes and a worker takes it. The
-- wheel with the pool: two timers, and the wheel's turn.
use moveon.Base.{ℕ, ◌+◌, ◌≤◌, ◌≡◌, refl, List, [], ◌∷◌, some, Bool, ok, codes, arith, length, All}
use moveon.Message.Layout.{req}
use moveon.Message.Parts.{pack}
use moveon.Pool.World
use moveon.Pool.World.{World, new_world}
use moveon.Pool.Order.{pending}
use moveon.Pool.Accounts.{count_if}
use moveon.Router.Uri.{get_uri, member_uri}
use moveon.Router.Laws.{get_uri-pack}
use moveon.Service.Mgr.{Call, get_service}
use moveon.Server.State.{Connection, new_server}
use moveon.Server.Laws.{opened}
use moveon.System.Acts.{System, Act, notices, messages, starts, initialises, wakes, act_all}
use moveon.System.Refines.{IsRouted, pool_events, Ends, act_all-Ends}
use moveon.System.Accounts.{new_system, asked, act_all-serves}
use moveon.System.Served.{message_served}
use moveon.Base.Dict
use moveon.Pool.Queue.{normal_task}
use moveon.Wheel.Clock
use moveon.Wheel.Clock.{Moment, asks, posts, turns, timers, cancels, adds, moments, new_clock}
use moveon.Wheel.Start.{turn_and_process, timer}
use moveon.Examples.Samples.{zeros, one_exh, first_opt, second_opt, sample, plain_json, chat}
use moveon.Examples.Messages.{sample-Fits}

abbrev guest : Connection
guest = record { address = 77; remote = codes "guest" }

abbrev acts : List Act
acts =
    initialises
    ∷ starts chat
    ∷ notices (opened guest)
    ∷ messages (some guest) zeros (pack zeros one_exh (first_opt ∷ second_opt ∷ []) req 5).payload
    ∷ wakes 0
    ∷ []

sample-routed : get_uri plain_json sample ≡ ok (codes "/chat")
unfolding member_uri
sample-routed =
    get_uri-pack plain_json zeros zeros one_exh req 5 (omega arith) first_opt (second_opt ∷ [])
      sample-Fits

abbrev acts-routed : All (IsRouted plain_json) acts
acts-routed = (tt, (tt, (tt, ((guest, codes "/chat", refl, sample-routed), (tt, tt)))))

act_all-Ends_example :
    Ends plain_json 2 acts new_system
      (World.run 2 (new_world Call) (pool_events plain_json acts [] acts-routed))
act_all-Ends_example = act_all-Ends plain_json 2 acts new_system acts-routed

act_all-serves_example :
    (s' : System) × (act_all plain_json 2 acts new_system ≡ ok s')
    × ((p : Call → Bool)
        → count_if p (asked plain_json acts [] acts-routed)
          ≡ count_if p (pending s'.calls.pool)
            + count_if p s'.calls.executed
            + count_if p s'.calls.direct
            + count_if p s'.calls.dropped)
    × (length s'.calls.executed ≤ 2)
act_all-serves_example = act_all-serves plain_json 2 acts acts-routed

abbrev moments_of_wheel : List (Moment ℕ)
moments_of_wheel =
    asks
    ∷ timers 1 10
    ∷ timers 5 20
    ∷ cancels 2
    ∷ Moment.initialises
    ∷ posts
    ∷ adds normal_task 30
    ∷ Moment.wakes 0
    ∷ turns
    ∷ Moment.finishes 0
    ∷ Moment.wakes 1
    ∷ []

begun_jobs :
    (moments 2 (new_clock ℕ) moments_of_wheel).pool.executed ≡ turn_and_process ∷ timer 10 ∷ []
unfolding moments Clock.moment World.wake World.wake_one World.finish World.finish_one Clock.wake_up
    new_clock moveon.Wheel.Start.instance_call moveon.Wheel.Start.init_wheel
    moveon.Wheel.Timer.new_wheel World.add_task World.init_thread_pool new_world World.evaluate
    moveon.Pool.Queue.get_task Clock.turn_once Clock.post_due moveon.Pool.Queue.new_pool
    moveon.Pool.Queue.start_threads moveon.Wheel.Timer.add_ms_task moveon.Wheel.Timer.cancel_in
    moveon.Wheel.Timer.cancel_timer moveon.Wheel.Timer.due_tasks moveon.Wheel.Timer.place
    moveon.Wheel.Timer.process moveon.Wheel.Timer.tick moveon.Wheel.Timer.turn
begun_jobs = refl

-- A server that has a service, and a pool of two workers with nothing to do.
abbrev ready_system : System
ready_system = record {
  server = new_server;
  services = (codes "/chat", chat) ∷ [];
  calls = World.init_thread_pool 2 (new_world Call);
}

message_served_example :
    (s' : System) × (act_all plain_json 2
        (messages
            (some guest)
            zeros
            (pack zeros one_exh (first_opt ∷ second_opt ∷ []) req 5).payload
          ∷ wakes 1
          ∷ [])
        ready_system
      ≡ ok s')
    × (s'.calls.executed ≡ record { service = chat; session = 77; message = sample } ∷ [])
    × (pending s'.calls.pool ≡ [])
unfolding member_uri World.init_thread_pool new_world get_service Dict.find
message_served_example =
    message_served plain_json 2 zeros zeros one_exh first_opt (second_opt ∷ []) req 5 (omega arith)
      sample-Fits guest chat 1 ready_system refl refl refl refl refl
