-- ===== src/Message/Read.antt =====
-- The receiving side of aaws_message. All reads go through `get_head`: a block of memory, and an
-- offset from its start. The block of a received message is its payload with the zero byte that
-- ends a `std::string`; that of a message under construction is the `_header` member alone.
use moveon.Base.{
  ℕ, zero, suc, ◌+◌, ◌*◌, Bool, true, List, [], ◌∷◌, ◌++◌, Bytes, u32, Outcome, ok, deref, ◌>>=◌,
  slice, read_u8, read_u32, leb, if◌then◌else◌, codes,
}
use moveon.Base.Int.{ℤ, pos, negsuc}
use moveon.Message.Layout.{sizeof_head, head_bytes, sizeof_oph, oph_len_at}
use moveon.Message.Build.{Message}

unfoldable pub get_head : Message → Outcome Bytes
get_head m =
    if m.use_ex_msg_ptr
    then (do text ← deref m.ptr; ok (text ++ (0 ∷ [])))
    else ok (head_bytes m.header)

unfoldable pub get_payload : Message → Outcome Bytes
get_payload m = if m.use_ex_msg_ptr then deref m.ptr else ok m.payload

unfoldable pub size : Message → Outcome ℕ
size m = do ph ← get_head m; read_u32 ph 8

unfoldable pub sequence : Message → Outcome ℕ
sequence m = do ph ← get_head m; read_u32 ph 32

unfoldable pub get_exh_cnt : Message → Outcome ℕ
get_exh_cnt m = do ph ← get_head m; read_u8 ph 13

unfoldable pub get_opt_cnt : Message → Outcome ℕ
get_opt_cnt m = do ph ← get_head m; read_u8 ph 14

unfoldable pub get_exh_size : Message → Outcome ℕ
get_exh_size m = do ph ← get_head m; read_u32 ph 16

unfoldable pub get_opt_size : Message → Outcome ℕ
get_opt_size m = do ph ← get_head m; read_u32 ph 20

-- aaws_message.cpp, `get_payload_method`
unfoldable pub method_name : ℕ → Bytes
method_name zero = codes "NONE"
method_name (suc zero) = codes "REQ"
method_name (suc (suc zero)) = codes "ACK"
method_name (suc (suc (suc zero))) = codes "MESSAGE"
method_name (suc (suc (suc (suc zero)))) = codes "CONFORM"
method_name (suc (suc (suc (suc (suc n))))) = []

unfoldable pub get_payload_method : Message → Outcome Bytes
get_payload_method m = do ph ← get_head m; code ← read_u8 ph 12; ok (method_name code)

-- The loop of `get_option(opts)`, with the rounds that are left.
unfoldable pub options_from : Bytes → ℕ → ℕ → Outcome (List Bytes)
options_from ph zero offset = ok []
options_from ph (suc left) offset = do
  len ← oph_len_at ph offset
  let optlen = u32 (len + sizeof_oph)
  s ← slice ph offset optlen
  rest ← options_from ph left (u32 (offset + optlen))
  ok (s ∷ rest)

-- `get_option(std::vector<std::string> &opts)`: what it adds to `opts`.
unfoldable pub get_options : Message → Outcome (List Bytes)
get_options m = do
  ph ← get_head m
  exhlen ← read_u32 ph 16
  optcnt ← read_u8 ph 14
  options_from ph optcnt (u32 (sizeof_head + exhlen))

-- A subscript `id` of type int is refused when it is not below the count or is negative.
unfoldable pub bad_id : ℤ → ℕ → Bool
bad_id (pos id) count = leb count id
bad_id (negsuc id) count = true

abbrev pub rounds : ℤ → ℕ
rounds (pos id) = id
rounds (negsuc id) = 0

-- What an accessor with a subscript does: -1, or 0 and a value.
pub data Lookup {ℓ} (A : Type ℓ) : Type ℓ where
  refused : Lookup A
  found : A → Lookup A

-- The loop of `get_option(s, id)`. `optH` is the address that the pointer holds, as an offset;
-- `ph + offset` is arithmetic on an `AAWS_HEAD *`, so it moves by 40 bytes for each unit.
unfoldable pub option_seek : Bytes → ℕ → ℕ → ℕ → Outcome (ℕ × ℕ)
option_seek ph zero offset opt_h = ok (offset, opt_h)
option_seek ph (suc left) offset opt_h = do
  len ← oph_len_at ph opt_h
  let next = u32 (offset + (len + sizeof_oph))
  option_seek ph left next (sizeof_head * next)

unfoldable pub option_at : Message → ℕ → Outcome Bytes
option_at m id = do
  ph ← get_head m
  exhlen ← read_u32 ph 16
  let start = u32 (sizeof_head + exhlen)
  (offset, opt_h) ← option_seek ph id start start
  len ← oph_len_at ph opt_h
  slice ph offset (len + sizeof_oph)

-- `get_option(std::string &s, int id)`
unfoldable pub get_option : Message → ℤ → Outcome (Lookup Bytes)
unfolding option_at
get_option m id = do
  count ← get_opt_cnt m
  if bad_id id count then ok refused else (do s ← option_at m (rounds id); ok (found s))
