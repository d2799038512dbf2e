-- ===== src/Server/State.antt =====
-- websocket_server.h and websocket_server.cpp. The endpoint of websocketpp is not modelled: what its
-- calls give (a connection for a handle, an error, an exception) is an argument. A thread is known
-- by its id. Each handler is one step, since it holds the spin lock `m_flag` around the map.
use moveon.Base.{
  ℕ, ◌+◌, List, [], ◌∷◌, Option, none, some, Bool, true, false, Bytes, Outcome, ok, undefined,
  thrown, ◌>>=◌, nat_eq, if◌then◌else◌, u32, codes, text_eq,
}
use moveon.Base.Dict
use moveon.Base.Dict.{Dict}
use moveon.Message.Build.{received_message}
use moveon.Router.Json.{Json}
use moveon.Pool.World.{World}
use moveon.Service.Mgr.{Services, Call, commit}

pub data ServerState : Type 0 where
  uninit inited running error : ServerState

-- What the handlers use of a connection object: its address and its remote endpoint.
pub record Connection : Type 0 where
  pub address : ℕ
  pub remote : Bytes

-- A send that was posted to a thread's io_service: connection, text, opcode.
pub record Post : Type 0 where
  pub connection : ℕ
  pub text : Bytes
  pub opcode : ℕ

-- `io_service` lists what is posted for each thread. `session_id` is the static counter
-- aaws_session::m_id.
pub record Server : Type 0 where
  pub io_service : Dict ℕ (List Post)
  pub work : ℕ
  pub exit : Bool
  pub state : ServerState
  pub connecter : Dict ℕ Bytes
  pub port : ℕ
  pub async_thread_num : ℕ
  pub session_id : ℕ

unfoldable pub new_server : Server
new_server = record {
  io_service = [];
  work = 0;
  exit = false;
  state = uninit;
  connecter = [];
  port = 9090;
  async_thread_num = 5;
  session_id = 0;
}

unfoldable pub init_service : Server → Server × Bool
init_service s = (record s { state = inited }, true)

-- The threads that `start_async_thread` starts enter their own io_service first; `ids` are the ids
-- that they get.
unfoldable pub start_async_thread : List ℕ → Server → Server
start_async_thread [] s = s
start_async_thread (tid ∷ ids) s =
    start_async_thread ids
      (record s { io_service = Dict.insert tid [] s.io_service; work = s.work + 1 })

-- `run`; `listens` is false when `listen` or `start_accept` throws.
unfoldable pub run : Bool → List ℕ → Server → Server
unfolding start_async_thread
run listens ids s = start_async_thread ids (record s { state = if listens then running else error })

-- The loop of `exit` polls `stopped()`: its answers are given, and `none` is a list that ends before
-- the first true.
unfoldable pub exit_loop : List Bool → Server → Option Server
exit_loop [] s = none
exit_loop (stopped ∷ later) s =
    let rest = exit_loop later s in if stopped then some (record s { exit = true }) else rest

unfoldable pub get_server_state : Server → ServerState
get_server_state s = s.state

abbrev pub is_some {ℓ} : {A : Type ℓ} → Option A → Bool
is_some none = false
is_some (some a) = true

unfoldable pub is_conn_valid : ℕ → Server → Bool
is_conn_valid address s = is_some (Dict.find address s.connecter)

-- `get_con_from_hdl(hdl)` throws where the handle has expired.
abbrev pub or_throw : Option Connection → Outcome Connection
or_throw none = thrown
or_throw (some con) = ok con

unfoldable pub on_open : Option Connection → Server → Outcome Server
on_open hdl s = do
  con ← or_throw hdl
  ok (record s { connecter = Dict.insert con.address con.remote s.connecter })

-- `get_con_from_hdl(hdl, ec)` gives a null pointer where the handle has expired; the handler prints
-- the error and goes on with the pointer.
unfoldable pub on_close : Option Connection → Server → Outcome Server
on_close none s = undefined
on_close (some con) s = ok (record s { connecter = Dict.erase con.address s.connecter })

-- `on_message`: a session is made, and the message handed to the service manager, whose result is
-- only printed.
unfoldable pub on_message :
    Json
    → Services
    → Option Connection
    → Bytes
    → Bytes
    → Server
    → World Call
    → Outcome (Server × World Call)
on_message json services hdl beyond msg s w = do
  con ← or_throw hdl
  (code, w') ← commit json services con.address (received_message beyond msg) w
  ok (record s { session_id = u32 (s.session_id + 1) }, w')

-- `on_ping`: false where `pong` throws.
unfoldable pub on_ping : Option Connection → Bool → Outcome Bool
on_ping hdl pong_works = do con ← or_throw hdl; ok (if pong_works then true else false)

unfoldable pub on_pong : Option Connection → Outcome Bool
on_pong hdl = do con ← or_throw hdl; ok true

unfoldable pub verify_token : Bytes → Bytes → Bool
verify_token connecter token = true

-- `on_validate`: the answer, and the header that is appended to the response.
unfoldable pub on_validate : Option Connection → Bytes → Outcome (Bool × Option (Bytes × Bytes))
unfolding verify_token
on_validate hdl token = do
  con ← or_throw hdl
  ok (
      if verify_token con.remote token
      then (true, some (codes "Sec-WebSocket-Protocol", token))
      else (false, none))
