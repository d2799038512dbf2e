-- ===== src/Server/Session.antt =====
-- aaws_session.h and aaws_session.cpp.
use moveon.Base.{
  ℕ, ◌+◌, ◌++◌, List, [], ◌∷◌, Option, none, some, Bool, Bytes, Outcome, ok, ◌>>=◌, u32, nat_eq,
  if◌then◌else◌, codes,
}
use moveon.Base.Int.{ℤ, pos, negsuc, eq_ℤ}
use moveon.Base.Dict
use moveon.Base.Dict.{Dict}
use moveon.Server.State.{Server, Post, Connection, or_throw, is_conn_valid}

-- `m_hdl` is the connection that it leads to; `m_error_reason` is never used.
pub record Session : Type 0 where
  pub hdl : Option Connection
  pub status : Bytes
  pub tid : ℕ
  pub conn_addr : ℕ

-- The constructor, which counts in the static `m_id`. It looks the connection up through the weak
-- pointer to the endpoint.
unfoldable pub new_session : Option Connection → ℕ → Server → Outcome (Session × Server)
new_session hdl tid s = do
  con ← or_throw hdl
  ok (
    record { hdl = hdl; status = codes "Connecting"; tid = tid; conn_addr = con.address },
    record s { session_id = u32 (s.session_id + 1) },
  )

unfoldable pub get_status : Session → Bytes
get_status session = session.status

unfoldable pub get_hdl : Session → Option Connection
get_hdl session = session.hdl

-- `get_id` reads the static counter.
unfoldable pub get_id : Session → Server → ℕ
get_id session s = s.session_id

unfoldable pub conn_id : Session → ℕ
conn_id session = session.conn_addr

unfoldable pub valid : Session → Server → Bool
valid session s = is_conn_valid session.conn_addr s

-- `post` on the io_service that `find` gave, if it gave one.
abbrev pub post_to : ℕ → Post → Server → Option (List Post) → Server
post_to tid post s none = s
post_to tid post s (some posts) = record s {
  io_service = Dict.assign tid (posts ++ (post ∷ [])) s.io_service;
}

-- `async_send`: the send is posted to the io_service of the thread that received the message.
unfoldable pub async_send : Session → Bytes → ℕ → Server → Server
async_send session msg opcode s =
    post_to session.tid (record { connection = session.conn_addr; text = msg; opcode = opcode }) s
      (Dict.find session.tid s.io_service)

-- `send`: `alive` says whether the weak pointer can be locked, and `code` is the value of the error
-- code that the endpoint's `send` sets, 0 for none.
unfoldable pub send : Bool → ℤ → ℤ
send alive code = if alive then (if eq_ℤ code (pos 0) then pos 0 else code) else negsuc 0
