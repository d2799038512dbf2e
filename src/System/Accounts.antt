-- ===== src/System/Accounts.antt =====
-- What becomes of the messages, and how many the server can serve.
use moveon.Base.{
  ℕ, ◌+◌, ◌≤◌, ◌≡◌, refl, sym, ap, subst, ◌∙◌, List, [], ◌∷◌, ◌++◌, Bool, ok, All, length,
}
use moveon.Router.Json.{Json}
use moveon.Pool.World
use moveon.Pool.World.{World, new_world}
use moveon.Pool.Order.{pending}
use moveon.Pool.Accounts.{added, count_if, tasks_conserved}
use moveon.Pool.Capacity.{executed-le-nprocs}
use moveon.Service.Mgr.{Services, Call, start, stop, get_service}
use moveon.Server.State.{new_server}
use moveon.System.Acts.{
  System, Act, notices, messages, starts, stops, initialises, releases, wakes, finishes, act_all,
}
use moveon.System.Refines.{IsRouted, call_of, adds_all, pool_events, act_all-Ends}

added-adds_all :
    (calls : List Call) (es : List (World.Event Call))
    → added (adds_all calls es) ≡ calls ++ added es
added-adds_all [] es = refl
added-adds_all (c ∷ calls) es = ap (λ xs. c ∷ xs) (added-adds_all calls es)

-- The system before `main`.
abbrev pub new_system : System
new_system = record { server = new_server; services = []; calls = new_world Call }

module _ (json : Json) where
  -- The calls that acts ask for, with the services that are registered when each comes.
  abbrev pub asked : (acts : List Act) → Services → All (IsRouted json) acts → List Call
  asked [] services routed = []
  asked (messages hdl beyond msg ∷ acts) services ((con, uri, alive, there), rest) =
      call_of con.address beyond msg (get_service uri services) ++ asked acts services rest
  asked (notices n ∷ acts) services (u, rest) = asked acts services rest
  asked (starts s ∷ acts) services (u, rest) = asked acts (start s services).0 rest
  asked (stops s ∷ acts) services (u, rest) = asked acts (stop s services).0 rest
  asked (initialises ∷ acts) services (u, rest) = asked acts services rest
  asked (releases ∷ acts) services (u, rest) = asked acts services rest
  asked (wakes i ∷ acts) services (u, rest) = asked acts services rest
  asked (finishes i ∷ acts) services (u, rest) = asked acts services rest

  added-pool_events :
      (acts : List Act) (services : Services) (routed : All (IsRouted json) acts)
      → added (pool_events json acts services routed) ≡ asked acts services routed
  added-pool_events [] services routed = refl
  added-pool_events (messages hdl beyond msg ∷ acts) services ((con, uri, alive, there), rest) =
      let calls = call_of con.address beyond msg (get_service uri services) in
      added-adds_all calls (pool_events json acts services rest)
      ∙ ap (λ xs. calls ++ xs) (added-pool_events acts services rest)
  added-pool_events (notices n ∷ acts) services (u, rest) = added-pool_events acts services rest
  added-pool_events (starts s ∷ acts) services (u, rest) =
      added-pool_events acts (start s services).0 rest
  added-pool_events (stops s ∷ acts) services (u, rest) =
      added-pool_events acts (stop s services).0 rest
  added-pool_events (initialises ∷ acts) services (u, rest) = added-pool_events acts services rest
  added-pool_events (releases ∷ acts) services (u, rest) = added-pool_events acts services rest
  added-pool_events (wakes i ∷ acts) services (u, rest) = added-pool_events acts services rest
  added-pool_events (finishes i ∷ acts) services (u, rest) = added-pool_events acts services rest

  -- From the start, whatever connections, services, workers and messages do, with every message
  -- from a live connection and routed to some uri: the run goes through; the calls that wait, were
  -- begun, got a thread, or were dropped are, as a multiset (counted by any test), one for each
  -- message whose uri had a service when it came; and no more calls were begun than there are
  -- processors, however long the server runs.
  pub act_all-serves :
      (nprocs : ℕ) (acts : List Act) (routed : All (IsRouted json) acts)
      → (s' : System) × (act_all json nprocs acts new_system ≡ ok s')
        × ((p : Call → Bool)
            → count_if p (asked acts [] routed)
              ≡ count_if p (pending s'.calls.pool)
                + count_if p s'.calls.executed
                + count_if p s'.calls.direct
                + count_if p s'.calls.dropped)
        × (length s'.calls.executed ≤ nprocs)
  act_all-serves nprocs acts routed =
      let (s', ran, pool) = act_all-Ends json nprocs acts new_system routed in
      let es = pool_events json acts [] routed in
      (
        s',
        ran,
        λ p.
            ap (count_if p) (sym (added-pool_events acts [] routed))
            ∙ tasks_conserved p nprocs es
            ∙ ap
                (λ (w : World Call).
                  count_if p (pending w.pool)
                  + count_if p w.executed
                  + count_if p w.direct
                  + count_if p w.dropped)
                (sym pool),
        subst (λ (w : World Call). length w.executed ≤ nprocs) (sym pool)
            (executed-le-nprocs nprocs es),
      )
