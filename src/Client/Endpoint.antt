-- ===== src/Client/Endpoint.antt =====
-- class websocket_endpoint. The client of websocketpp is not modelled: its answers are arguments,
-- and the calls of it are results. Ids do not overflow an int.
use moveon.Base.{
  ℕ, ◌+◌, List, [], ◌∷◌, Option, none, some, Bool, Bytes, codes, nat_eq, text_beq, if◌then◌else◌,
}
use moveon.Base.Int.{ℤ, pos, negsuc}
use moveon.Base.Dict
use moveon.Base.Dict.{Dict}
use moveon.Client.Metadata.{
  Metadata, new_metadata, on_open, on_fail, record_sent_message, get_hdl, get_status,
}

pub record Endpoint : Type 0 where
  pub connection_list : Dict ℕ Metadata
  pub next_id : ℕ

unfoldable pub new_endpoint : Endpoint
new_endpoint = record { connection_list = []; next_id = 0 }

-- `find` with an id of type int: the keys are not negative.
abbrev pub find_id : ℤ → Endpoint → Option Metadata
find_id (pos id) e = Dict.find id e.connection_list
find_id (negsuc id) e = none

-- `connect`, with the handle of the new connection, `none` where `get_connection` fails.
unfoldable pub connect : Option ℕ → Bytes → Endpoint → Endpoint × ℤ
connect none uri e = (e, negsuc 0)
connect (some hdl) uri e = (
  record {
    connection_list = Dict.assign e.next_id (new_metadata e.next_id hdl uri) e.connection_list;
    next_id = e.next_id + 1;
  },
  pos e.next_id,
)

-- `close`: the call of the client, with the handle and the code; `none` where the id is unknown.
unfoldable pub close : ℤ → ℤ → Endpoint → Option (ℕ × ℤ)
close id code e = elim (find_id id e) [ none ↦ none | some d ↦ some (get_hdl d, code) ]

-- A change of the object that the list's shared pointer leads to.
abbrev pub change_found : ℕ → (Metadata → Metadata) → Endpoint → Option Metadata → Endpoint
change_found id f e none = e
change_found id f e (some d) = record e { connection_list = Dict.assign id (f d) e.connection_list }

abbrev pub change : ℕ → (Metadata → Metadata) → Endpoint → Endpoint
change id f e = change_found id f e (Dict.find id e.connection_list)

abbrev pub change_at : ℤ → (Metadata → Metadata) → Endpoint → Endpoint
change_at (pos id) f e = change id f e
change_at (negsuc id) f e = e

-- `send`; `sent` is false where the client's `send` sets an error.
unfoldable pub send : ℤ → Bytes → Bool → Endpoint → Endpoint
send id message sent e = if sent then change_at id (record_sent_message message) e else e

unfoldable pub get_metadata : ℤ → Endpoint → Option Metadata
get_metadata id e = find_id id e

-- The loop of the destructor: the handles that it closes, with the code 1001 for going away.
unfoldable pub closed_handles : Dict ℕ Metadata → List (ℕ × ℤ)
closed_handles [] = []
closed_handles ((id, d) ∷ list) =
    let rest = closed_handles list in
    if text_beq (get_status d) (codes "Open") then (get_hdl d, pos 1001) ∷ rest else rest

-- What changes the list: calls of the command loop, and handlers that the client's thread runs.
pub data Event : Type 0 where
  connects : Option ℕ → Bytes → Event
  sends : ℤ → Bytes → Bool → Event
  opens : ℕ → Option Bytes → Event
  fails : ℕ → Option (Bytes × Bytes) → Event

unfoldable pub step : Event → Endpoint → Endpoint
unfolding connect send
step (connects hdl uri) e = (connect hdl uri e).0
step (sends id message sent) e = send id message sent e
step (opens id answer) e = change id (on_open answer) e
step (fails id answer) e = change id (on_fail answer) e

unfoldable pub run : List Event → Endpoint → Endpoint
run [] e = e
run (ev ∷ es) e = run es (step ev e)
