-- ===== src/System/Refines.antt =====
-- The pool of the whole system is the thread pool on its own, run on the events that the acts stand
-- for.
use moveon.Base.{
  ℕ, ◌≡◌, refl, ap, ◌∙◌, List, [], ◌∷◌, Option, none, some, Bytes, ok, ◌>>=◌, All, u32, ◌+◌,
}
use moveon.Base.Int.{ℤ, pos, negsuc}
use moveon.Message.Build.{received_message}
use moveon.Router.Json.{Json}
use moveon.Router.Uri.{get_uri}
use moveon.Pool.World
use moveon.Pool.World.{World, Event, adds}
use moveon.Pool.Queue.{normal_task}
use moveon.Service.Mgr.{Service, Services, Call, start, stop, get_service, commit, commit_to}
use moveon.Server.State.{Server, Connection, on_message, on_open, on_close}
use moveon.Server.Laws.{Notice, opened, closed, handle}
use moveon.System.Acts.{
  System, Act, notices, messages, starts, stops, initialises, releases, wakes, finishes, act,
  act_all,
}

notice_handled : (n : Notice) (s : Server) → (s' : Server) × (handle n s ≡ ok s')
unfolding on_open on_close
notice_handled (opened con) s = (_, refl)
notice_handled (closed con) s = (_, refl)

-- The call that a message asks for, if its uri has a service.
abbrev pub call_of : ℕ → Bytes → Bytes → Option Service → List Call
call_of session beyond msg none = []
call_of session beyond msg (some s) =
    record { service = s; session = session; message = received_message beyond msg } ∷ []

abbrev pub adds_all : List Call → List (Event Call) → List (Event Call)
adds_all [] es = es
adds_all (c ∷ calls) es = adds normal_task c ∷ adds_all calls es

module _ (json : Json) where
  -- A message that the model runs: its handle is alive, and the router answers with a uri.
  abbrev pub IsRouted : Act → Type 0
  IsRouted (messages hdl beyond msg) =
      (con : Connection) × (uri : Bytes) × (hdl ≡ some con)
      × (get_uri json (received_message beyond msg) ≡ ok uri)
  IsRouted _ = Unit

  -- The pool's events: a message is one call of the service that its uri has when it comes.
  abbrev pub pool_events : (acts : List Act) → Services → All IsRouted acts → List (Event Call)
  pool_events [] services routed = []
  pool_events (notices n ∷ acts) services (u, rest) = pool_events acts services rest
  pool_events (messages hdl beyond msg ∷ acts) services ((con, uri, alive, there), rest) =
      adds_all (call_of con.address beyond msg (get_service uri services))
        (pool_events acts services rest)
  pool_events (starts s ∷ acts) services (u, rest) = pool_events acts (start s services).0 rest
  pool_events (stops s ∷ acts) services (u, rest) = pool_events acts (stop s services).0 rest
  pool_events (initialises ∷ acts) services (u, rest) =
      Event.initialises ∷ pool_events acts services rest
  pool_events (releases ∷ acts) services (u, rest) = Event.releases ∷ pool_events acts services rest
  pool_events (wakes i ∷ acts) services (u, rest) = Event.wakes i ∷ pool_events acts services rest
  pool_events (finishes i ∷ acts) services (u, rest) =
      Event.finishes i ∷ pool_events acts services rest

  module _ (nprocs : ℕ) where
    -- A run from `s` ends, with this pool.
    abbrev pub Ends : List Act → System → World Call → Type 0
    Ends acts s w = (s' : System) × (act_all json nprocs acts s ≡ ok s') × (s'.calls ≡ w)

    Ends-next :
        (a : Act) (acts : List Act) (s s1 : System) {w w1 : World Call}
        → act json nprocs a s ≡ ok s1
        → w1 ≡ w
        → Ends acts s1 w1
        → Ends (a ∷ acts) s w
    unfolding act_all
    Ends-next a acts s s1 now same (s', ran, pool) =
        (s', ap (λ o. o >>= act_all json nprocs acts) now ∙ ran, pool ∙ same)

    commit_to-run :
        (con : ℕ) (beyond msg : Bytes) (w : World Call) (found : Option Service)
        → (w' : World Call) × (code : ℤ) × (commit_to con (received_message beyond msg) w found
            ≡ ok (code, w'))
          × ((es : List (Event Call))
              → World.run nprocs w' es
                ≡ World.run nprocs w (adds_all (call_of con beyond msg found) es))
    unfolding commit_to World.run World.step
    commit_to-run con beyond msg w none = (w, negsuc 0, refl, λ es. refl)
    commit_to-run con beyond msg w (some s) = (_, pos 0, refl, λ es. refl)

    -- Whatever connections, services, workers and messages do, in any order, with every message from
    -- a live connection and routed to some uri: the run goes through, and the pool is then the pool
    -- on its own after the same initialisations, wakes, ends and releases, and one normal task for
    -- each message whose uri had a service when it came.
    pub act_all-Ends :
        (acts : List Act) (s : System) (routed : All IsRouted acts)
        → Ends acts s (World.run nprocs s.calls (pool_events acts s.services routed))
    unfolding act_all act on_message commit World.run World.step
    act_all-Ends [] s routed = (s, refl, refl)
    act_all-Ends (notices n ∷ acts) s (u, routed) =
        let (server, handled) = notice_handled n s.server in
        Ends-next (notices n) acts s (record s { server = server })
          (ap (λ o. o >>= λ t. ok (record s { server = t })) handled) refl
          (act_all-Ends acts (record s { server = server }) routed)
    act_all-Ends (messages hdl beyond msg ∷ acts) s ((con, uri, alive, there), routed) =
        let (w, code, committed, same) =
          commit_to-run con.address beyond msg s.calls (get_service uri s.services) in
        let s1 = record s {
          server = record (s.server) { session_id = u32 (s.server.session_id + 1) };
          calls = w;
        } in
        Ends-next (messages hdl beyond msg) acts s s1 (rw (alive, there, committed)) (same _)
          (act_all-Ends acts s1 routed)
    act_all-Ends (starts service ∷ acts) s (u, routed) =
        Ends-next (starts service) acts s _ refl refl
          (act_all-Ends acts (record s { services = (start service s.services).0 }) routed)
    act_all-Ends (stops service ∷ acts) s (u, routed) =
        Ends-next (stops service) acts s _ refl refl
          (act_all-Ends acts (record s { services = (stop service s.services).0 }) routed)
    act_all-Ends (initialises ∷ acts) s (u, routed) =
        Ends-next initialises acts s _ refl refl
          (act_all-Ends acts (record s { calls = World.init_thread_pool nprocs s.calls }) routed)
    act_all-Ends (releases ∷ acts) s (u, routed) =
        Ends-next releases acts s _ refl refl
          (act_all-Ends acts (record s { calls = World.request_exit s.calls }) routed)
    act_all-Ends (wakes i ∷ acts) s (u, routed) =
        Ends-next (wakes i) acts s _ refl refl
          (act_all-Ends acts (record s { calls = World.wake i s.calls }) routed)
    act_all-Ends (finishes i ∷ acts) s (u, routed) =
        Ends-next (finishes i) acts s _ refl refl
          (act_all-Ends acts (record s { calls = World.finish i s.calls }) routed)
