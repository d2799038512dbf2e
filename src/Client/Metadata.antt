-- ===== src/Client/Metadata.antt =====
-- class connection_metadata. A connection handle is a number. What the endpoint answers about a
-- handle is an argument, `none` where `get_con_from_hdl` throws.
use moveon.Base.{
  ℕ, List, [], ◌∷◌, ◌++◌, Option, none, some, Bool, Bytes, codes, length, if◌then◌else◌,
}

pub record Metadata : Type 0 where
  pub id : ℕ
  pub hdl : ℕ
  pub status : Bytes
  pub uri : Bytes
  pub server : Bytes
  pub error_reason : Bytes
  pub messages : List Bytes

unfoldable pub new_metadata : ℕ → ℕ → Bytes → Metadata
new_metadata id hdl uri = record {
  id = id;
  hdl = hdl;
  status = codes "Connecting";
  uri = uri;
  server = codes "N/A";
  error_reason = [];
  messages = [];
}

-- `on_open`, with the header "Server" of the response. The status is set before the call that can
-- throw.
unfoldable pub on_open : Option Bytes → Metadata → Metadata
on_open none d = record d { status = codes "Open" }
on_open (some server) d = record d { status = codes "Open"; server = server }

-- `on_fail`, with that header and the text of the error code.
unfoldable pub on_fail : Option (Bytes × Bytes) → Metadata → Metadata
on_fail none d = record d { status = codes "Failed" }
on_fail (some (server, reason)) d = record d {
  status = codes "Failed";
  server = server;
  error_reason = reason;
}

-- `on_close`, which nothing registers, with the close code in decimal, its name, and the reason.
unfoldable pub on_close : Option (Bytes × Bytes × Bytes) → Metadata → Metadata
on_close none d = record d { status = codes "Closed" }
on_close (some (code, name, reason)) d = record d {
  status = codes "Closed";
  error_reason =
      codes "close code: "
      ++ (code ++ (codes " (" ++ (name ++ (codes "), close reason: " ++ reason))));
}

-- `on_message`: the line that is printed; opcode 1 is text.
unfoldable pub on_message : Bool → Bytes → Bytes
on_message is_text payload = if is_text then payload else codes "on binary message "

unfoldable pub record_sent_message : Bytes → Metadata → Metadata
record_sent_message message d = record d {
  messages = d.messages ++ ((codes ">> " ++ message) ∷ []);
}

unfoldable pub get_status : Metadata → Bytes
get_status d = d.status

unfoldable pub get_hdl : Metadata → ℕ
get_hdl d = d.hdl

unfoldable pub get_id : Metadata → ℕ
get_id d = d.id

abbrev pub or_text : Bytes → Bytes → Bytes
or_text text [] = text
or_text text (c ∷ cs) = c ∷ cs

abbrev newline : Bytes
newline = 10 ∷ []

-- The loop over the messages, whose body returns.
unfoldable pub print_messages : List Bytes → Bytes
print_messages [] = []
print_messages (m ∷ messages) = m ++ newline

-- `operator<<`; `decimal` is what a stream prints for a number.
unfoldable pub print : (ℕ → Bytes) → Metadata → Bytes
print decimal d =
    codes "> URI: "
    ++ d.uri
    ++ newline
    ++ (codes "> Status: " ++ d.status ++ newline)
    ++ (codes "> Remote Server: " ++ or_text (codes "None Specified") d.server ++ newline)
    ++ (codes "> Error/close reason: " ++ or_text (codes "N/A") d.error_reason)
    ++ (codes "> Messages Processed: (" ++ decimal (length d.messages) ++ codes ") " ++ newline)
    ++ print_messages d.messages
