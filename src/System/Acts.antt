-- ===== src/System/Acts.antt =====
-- The global objects together, and what moves them: a notice or a message of a connection, a service
-- that starts, and the pool's workers.
use moveon.Base.{ℕ, List, [], ◌∷◌, Option, Bytes, Outcome, ok, ◌>>=◌}
use moveon.Router.Json.{Json}
use moveon.Pool.World.{World, init_thread_pool, wake, finish, request_exit}
use moveon.Service.Mgr.{Service, Services, Call, start, stop}
use moveon.Server.State.{Server, Connection, on_message}
use moveon.Server.Laws.{Notice, handle}

pub record System : Type 0 where
  pub server : Server
  pub services : Services
  pub calls : World Call

-- `messages` has the bytes behind the initial literal, and the message.
pub data Act : Type 0 where
  notices : Notice → Act
  messages : Option Connection → Bytes → Bytes → Act
  starts stops : Service → Act
  initialises releases : Act
  wakes finishes : ℕ → Act

module _ (json : Json) (nprocs : ℕ) where
  unfoldable pub act : Act → System → Outcome System
  act (notices n) s = do server ← handle n s.server; ok (record s { server = server })
  act (messages hdl beyond msg) s = do
    (server, calls) ← on_message json s.services hdl beyond msg s.server s.calls
    ok (record s { server = server; calls = calls })
  act (starts service) s = ok (record s { services = (start service s.services).0 })
  act (stops service) s = ok (record s { services = (stop service s.services).0 })
  act initialises s = ok (record s { calls = init_thread_pool nprocs s.calls })
  act releases s = ok (record s { calls = request_exit s.calls })
  act (wakes i) s = ok (record s { calls = wake i s.calls })
  act (finishes i) s = ok (record s { calls = finish i s.calls })

  unfoldable pub act_all : List Act → System → Outcome System
  act_all [] s = ok s
  act_all (a ∷ acts) s = do s' ← act a s; act_all acts s'
