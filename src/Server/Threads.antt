-- ===== src/Server/Threads.antt =====
-- The loop of the threads that `start_async_thread` starts, and `on_async_send`. `io_service::poll`
-- runs what was posted, in order.
use moveon.Base.{ℕ, List, [], ◌∷◌, ◌++◌, map, Option, none, some, Bytes, nat_eq}
use moveon.Base.Dict
use moveon.Base.Dict.{Dict}
use moveon.Server.State.{Server, Post}
use moveon.Server.Session.{Session, async_send}

-- A call of the endpoint's `send`, and the thread that made it.
pub record Sent : Type 0 where
  pub thread : ℕ
  pub post : Post

-- `on_async_send`: the error of `send` is only printed.
unfoldable pub on_async_send : ℕ → Post → Sent
on_async_send tid post = record { thread = tid; post = post }

abbrev pub poll_found : ℕ → Server → Option (List Post) → Server × List Sent
poll_found tid s none = (s, [])
poll_found tid s (some posts) =
    (record s { io_service = Dict.assign tid [] s.io_service }, map (on_async_send tid) posts)

-- A round of the loop in thread `tid`, without the socket's messages.
unfoldable pub poll : ℕ → Server → Server × List Sent
poll tid s = poll_found tid s (Dict.find tid s.io_service)

-- What happens to the queues, in any order: a service sends, or a thread makes a round.
pub data Turn : Type 0 where
  sends : Session → Bytes → ℕ → Turn
  polls : ℕ → Turn

unfoldable pub take_turn : Turn → Server → Server × List Sent
unfolding async_send poll
take_turn (sends session msg opcode) s = (async_send session msg opcode s, [])
take_turn (polls tid) s = poll tid s

unfoldable pub take_turns : List Turn → Server → Server × List Sent
take_turns [] s = (s, [])
take_turns (t ∷ turns) s =
    let (s', sent) = take_turn t s in let (s'', later) = take_turns turns s' in (s'', sent ++ later)
