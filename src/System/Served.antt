-- ===== src/System/Served.antt =====
-- One message, from its bytes to the call of the service.
use moveon.Base.{
  ℕ, ◌+◌, ◌≤◌, ◌≡◌, sym, ap, ◌∙◌, List, [], ◌∷◌, ◌++◌, some, Bytes, ok, false, length, u32,
  get_elem?, append_assoc, take, drop,
}
use moveon.Message.Layout.{PayloadMethod}
use moveon.Message.Parts.{ExhPart, OptPart, Fits, pack}
use moveon.Message.Carries.{delivered}
use moveon.Router.Json.{Json}
use moveon.Router.Laws.{route}
use moveon.Pool.World.{World, waiting, wake}
use moveon.Pool.Order.{pending}
use moveon.Pool.Progress.{Woken, wake-Woken}
use moveon.Service.Mgr.{Service, Call, get_service}
use moveon.Service.Laws.{queued, answer, commit-pack}
use moveon.Server.State.{Connection, on_message}
use moveon.System.Acts.{System, messages, wakes, act, act_all}

pending-queued :
    (c : Call) (w : World Call) → pending (queued c w).pool ≡ pending w.pool ++ (c ∷ [])
pending-queued c w =
    ap (λ ts. w.pool.hpest_queue ++ ts)
      (sym (append_assoc w.pool.timer_queue w.pool.normal_queue (c ∷ [])))
    ∙ sym (append_assoc w.pool.hpest_queue (w.pool.timer_queue ++ w.pool.normal_queue) (c ∷ []))

module _ (json : Json) (nprocs : ℕ) (there here : Bytes) (es : List ExhPart) (o : OptPart)
    (os : List OptPart) (method : PayloadMethod) (number : ℕ) (enough : 38 ≤ length here)
    (fits : Fits es (o ∷ os)) where
  -- The bytes that a peer packs, and the call that they ask of a service.
  abbrev wire : Bytes
  wire = (pack here es (o ∷ os) method number).payload

  abbrev call : Connection → Service → Call
  call con service = record {
    service = service;
    session = con.address;
    message = delivered there here es (o ∷ os) method number;
  }

  -- A packed message that fits and has an option comes from a live connection, the routing rule
  -- gives it the uri of a service that the server has, and nothing else waits in the pool, which is
  -- not released. Then the message is handled, and the worker that wakes up next, any one that
  -- waits, begins the call of this service with this message and session.
  pub message_served :
      (con : Connection) (service : Service) (i : ℕ) (s : System)
      → route json es (o ∷ os) ≡ ok service.uri
      → get_service service.uri s.services ≡ some service
      → pending s.calls.pool ≡ []
      → s.calls.pool.exit ≡ false
      → get_elem? s.calls.workers i ≡ some waiting
      → (s' : System) × (act_all json nprocs (messages (some con) there wire ∷ wakes i ∷ []) s
          ≡ ok s')
        × (s'.calls.executed ≡ s.calls.executed ++ (call con service ∷ []))
        × (pending s'.calls.pool ≡ [])
  unfolding act_all act on_message Woken
  message_served con service i s routed found idle on free =
      let w = queued (call con service) s.calls in
      let committed =
        commit-pack json s.services there here es o os method number enough fits service.uri
          con.address s.calls routed
        ∙ ap
            (λ f.
              ok (answer con.address (delivered there here es (o ∷ os) method number) s.calls f))
            found in
      let (_, _, (began, left)) = wake-Woken i [] w on (free, tt) tt in
      let alone =
        pending-queued (call con service) s.calls ∙ ap (λ ts. ts ++ (call con service ∷ [])) idle in
      (
        record s {
          server = record (s.server) { session_id = u32 (s.server.session_id + 1) };
          calls = wake i w;
        },
        rw committed,
        began ∙ ap (λ ts. s.calls.executed ++ take 1 ts) alone,
        left ∙ ap (drop 1) alone,
      )
