-- ===== src/Examples/Commands.antt =====
-- Lines of the client, calls of the registry, and turns of the server's threads.
use mathlib.Core.Quot.{Quot}
use moveon.Base.{
  ℕ, ◌≡◌, ◌↔◌, refl, List, [], ◌∷◌, ◌++◌, none, some, codes, text_eq, nat_eq, ok, thrown,
}
use moveon.Base.Int.{pos}
use moveon.Base.Dict
use moveon.Client.Command.{Numbers, connect_to, show, read_command}
use moveon.Client.Lines.{IsBare, read_command-lines}
use moveon.Service.Mgr.{get_service}
use moveon.Service.Registry.{starts, stops, unregists, manage, latest, manage-latest}
use moveon.Server.State.{Server, Post, new_server}
use moveon.Server.Session.{Session}
use moveon.Server.Threads.{sends, polls, take_turns, poll, Turn}
use moveon.Server.Order.{posts_to, sent_by, sends_in_order}
use moveon.Examples.Samples.{chat, list}

-- Numbers that are always 0.
abbrev zero_numbers : Numbers
zero_numbers = record {
  atoi = λ text. pos 0;
  close_arguments = λ line. (pos 0, pos 1000);
  send_arguments = λ line. (pos 0, line);
}

read_command-lines_example :
    ((read_command zero_numbers (codes "show") ≡ thrown) ↔ IsBare (codes "show"))
    × (read_command zero_numbers (codes "connect ws://a") ≡ ok (connect_to (codes "ws://a")))
    × (read_command zero_numbers (codes "show ws://a") ≡ ok (show (pos 0)))
read_command-lines_example = read_command-lines zero_numbers (codes "show") (codes "ws://a")

manage-latest_example :
    get_service
      (codes "/chat")
      (manage (starts chat ∷ starts list ∷ stops chat ∷ unregists (codes "/chat") ∷ []) [])
    ≡ latest
        (codes "/chat")
        (starts chat ∷ starts list ∷ stops chat ∷ unregists (codes "/chat") ∷ [])
        (get_service (codes "/chat") [])
manage-latest_example =
    manage-latest (codes "/chat")
      (starts chat ∷ starts list ∷ stops chat ∷ unregists (codes "/chat") ∷ []) []

-- A server with the threads 1 and 2, and a session of each.
abbrev two_threads : Server
two_threads = record new_server { io_service = (1, []) ∷ (2, []) ∷ [] }

abbrev session_on : ℕ → Session
session_on tid = record { hdl = none; status = []; tid = tid; conn_addr = 100 }

abbrev some_turns : List Turn
some_turns =
    sends (session_on 1) (codes "a") 2
    ∷ sends (session_on 2) (codes "b") 2
    ∷ polls 1
    ∷ sends (session_on 1) (codes "c") 2
    ∷ []

two_threads-first : Dict.find 1 two_threads.io_service ≡ some []
unfolding Dict.find
two_threads-first = refl

sends_in_order_example :
    let (s', sent) = take_turns some_turns two_threads in
    (waiting : List Post) × (Dict.find 1 s'.io_service ≡ some waiting)
    × ([] ++ posts_to 1 some_turns ≡ sent_by 1 sent ++ waiting)
    × (Dict.find 1 (poll 1 s').0.io_service ≡ some [])
    × (sent_by 1 (poll 1 s').1 ≡ waiting)
sends_in_order_example = sends_in_order 1 some_turns two_threads [] two_threads-first
