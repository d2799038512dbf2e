-- ===== src/Client/Command.antt =====
-- The command loop of `main`. What `atoi` and the extractions from a string stream give is a
-- parameter.
use moveon.Base.{
  ℕ, List, [], ◌∷◌, Option, Bool, true, false, Bytes, codes, String, text_beq, if◌then◌else◌, take,
  drop, length, ltb, Outcome, ok, thrown, ◌>>=◌,
}
use moveon.Base.Int.{ℤ}
use moveon.Client.Endpoint.{Endpoint, new_endpoint, connect, send}

pub record Numbers : Type 0 where
  pub atoi : Bytes → ℤ
  -- `ss >> cmd >> id >> close_code`
  pub close_arguments : Bytes → ℤ × ℤ
  -- `ss >> cmd >> id` and the rest of the line
  pub send_arguments : Bytes → ℤ × Bytes

pub data Command : Type 0 where
  quit help unrecognized : Command
  connect_to : Bytes → Command
  show : ℤ → Command
  close_with : ℤ → ℤ → Command
  send_text : ℤ → Bytes → Command

-- `input.substr(pos)`
abbrev pub substr : Bytes → ℕ → Outcome Bytes
substr input from = if ltb (length input) from then thrown else ok (drop from input)

abbrev pub starts : Bytes → String → Bool
starts input word = text_beq (take (length (codes word)) input) (codes word)

-- Which branch of the loop a line takes, with its arguments.
unfoldable pub read_command : Numbers → Bytes → Outcome Command
read_command numbers input =
    if text_beq input (codes "quit")
    then ok quit
    else if text_beq input (codes "help")
    then ok help
    else if starts input "connect"
    then (do uri ← substr input 8; ok (connect_to uri))
    else if starts input "show"
    then (do id ← substr input 5; ok (show (numbers.atoi id)))
    else if starts input "close"
    then (let (id, code) = numbers.close_arguments input in ok (close_with id code))
    else if starts input "send"
    then (let (id, message) = numbers.send_arguments input in ok (send_text id message))
    else ok unrecognized

-- What the branch does to the endpoint; `hdl` and `sent` are the client's answers.
unfoldable pub execute : Command → Option ℕ → Bool → Endpoint → Endpoint
execute quit hdl sent e = e
execute help hdl sent e = e
execute unrecognized hdl sent e = e
execute (connect_to uri) hdl sent e = (connect hdl uri e).0
execute (show id) hdl sent e = e
execute (close_with id code) hdl sent e = e
execute (send_text id message) hdl sent e = send id message sent e

abbrev pub is_quit : Command → Bool
is_quit quit = true
is_quit _ = false

-- The loop, over the lines that are read and the client's answers: the endpoint, and whether the
-- loop ended or waits for a line.
unfoldable pub main_loop :
    Numbers → List (Bytes × Option ℕ × Bool) → Endpoint → Outcome (Endpoint × Bool)
main_loop numbers [] e = ok (e, false)
main_loop numbers ((input, hdl, sent) ∷ lines) e = do
  command ← read_command numbers input
  let rest = main_loop numbers lines (execute command hdl sent e)
  if is_quit command then ok (e, true) else rest

-- `main`, which connects to a local server first.
unfoldable pub main :
    Numbers → Option ℕ → List (Bytes × Option ℕ × Bool) → Outcome (Endpoint × Bool)
main numbers hdl lines =
    main_loop numbers lines (connect hdl (codes "ws://localhost:6661") new_endpoint).0
