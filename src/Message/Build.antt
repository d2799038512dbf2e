-- ===== src/Message/Build.antt =====
-- The sending side of aaws_message: the constructors, `append_option`, `append_exh`, `submit`.
use moveon.Base.{
  ℕ, ◌+◌, Bool, true, false, ◌∷◌, ◌++◌, Option, none, some, Bytes, length, take, drop, u8, u16, u32,
}
use moveon.Message.Layout.{
  Head, new_head, sizeof_head, head_bytes, Exh, new_exh, sizeof_exh, exh_bytes, Oph, new_oph,
  sizeof_oph, oph_bytes, PayloadMethod, method_code, OptFormat, format_code,
}

-- The object. `_exheaders` and `_opt_headers` are never used; `ptr` is the payload of the shared
-- websocketpp message, `none` for a null pointer.
pub record Message : Type 0 where
  pub header : Head
  pub payload : Bytes
  pub use_ex_msg_ptr : Bool
  pub ptr : Option Bytes

-- `std::string _payload{"\0", sizeof(AAWS_HEAD)}`: 40 bytes from the literal's address, which has
-- 2 bytes of its own; `beyond` is what the memory after it holds.
unfoldable pub initial_payload : Bytes → Bytes
initial_payload beyond = take sizeof_head (0 ∷ 0 ∷ beyond)

-- aaws_message()
unfoldable pub new_message : Bytes → Message
new_message beyond = record {
  header = new_head;
  payload = initial_payload beyond;
  use_ex_msg_ptr = false;
  ptr = none;
}

-- aaws_message(websocket_msg_ptr msg)
unfoldable pub received_message : Bytes → Bytes → Message
received_message beyond msg = record {
  header = new_head;
  payload = initial_payload beyond;
  use_ex_msg_ptr = true;
  ptr = some msg;
}

-- The struct that `append_option` copies in front of the data.
unfoldable pub option_head : ℕ → OptFormat → Bytes → Oph
option_head t fmt o = record new_oph {
  format = u8 (format_code fmt);
  type = u8 t;
  len = u32 (length o);
}

unfoldable pub append_option : ℕ → OptFormat → Bytes → Message → Message
append_option t fmt o m = record m {
  payload = (m.payload ++ oph_bytes (option_head t fmt o)) ++ o;
  header = record (m.header) {
    optcnt = u8 (m.header.optcnt + 1);
    optlen = u32 (m.header.optlen + (length o + sizeof_oph));
  };
}

-- The struct that `append_exh` copies in front of the data: its length field has 16 bits.
unfoldable pub exh_head : ℕ → ℕ → ℕ → Bytes → Exh
exh_head pad_0 pad_1 t h = record (new_exh pad_0 pad_1) { type = u8 t; len = u16 (length h) }

unfoldable pub append_exh : ℕ → ℕ → ℕ → Bytes → Message → Message
append_exh pad_0 pad_1 t h m = record m {
  payload = (m.payload ++ exh_bytes (exh_head pad_0 pad_1 t h)) ++ h;
  header = record (m.header) {
    exhcnt = u8 (m.header.exhcnt + 1);
    exhlen = u32 (m.header.exhlen + (length h + sizeof_exh));
  };
}

-- The header is completed and copied over the first 40 bytes of the payload.
unfoldable pub submitted_head : PayloadMethod → ℕ → Head → Head
submitted_head method sequence h = record h {
  payload_method = u8 (method_code method);
  seqence = u32 sequence;
  payload_len = u32 (sizeof_head + h.exhlen + h.optlen);
}

unfoldable pub submit : PayloadMethod → ℕ → Message → Message
submit method sequence m = record m {
  header = submitted_head method sequence m.header;
  payload = head_bytes (submitted_head method sequence m.header) ++ drop sizeof_head m.payload;
}
