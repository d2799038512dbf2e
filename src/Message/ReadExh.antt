-- ===== src/Message/ReadExh.antt =====
-- The accessors of the extension headers, and `dump_msg`.
use moveon.Base.{
  ℕ, zero, suc, ◌+◌, List, [], ◌∷◌, ◌++◌, Bytes, u32, Outcome, ok, ◌>>=◌, ◌>>◌, slice, read_u8,
  if◌then◌else◌,
}
use moveon.Base.Int.{ℤ, pos}
use moveon.Message.Layout.{
  Exh, sizeof_head, sizeof_exh, load_exh, sizeof_oph, oph_len_at, exh_len_at,
}
use moveon.Message.Build.{Message}
use moveon.Message.Read.{get_head, get_exh_cnt, get_option, bad_id, rounds, Lookup, refused, found}

-- The loop of `get_exh(exs)`: header and data of each entry.
unfoldable pub exhs_from : Bytes → ℕ → ℕ → Outcome (List Bytes)
exhs_from ph zero offset = ok []
exhs_from ph (suc left) offset = do
  len ← exh_len_at ph offset
  s ← slice ph offset (len + sizeof_exh)
  rest ← exhs_from ph left (u32 (offset + (len + sizeof_exh)))
  ok (s ∷ rest)

unfoldable pub get_exhs : Message → Outcome (List Bytes)
get_exhs m = do ph ← get_head m; exhcnt ← read_u8 ph 13; exhs_from ph exhcnt sizeof_head

-- The loop of `get_exh_payload(exs)`: the data of each entry.
unfoldable pub exh_payloads_from : Bytes → ℕ → ℕ → Outcome (List Bytes)
exh_payloads_from ph zero offset = ok []
exh_payloads_from ph (suc left) offset = do
  len ← exh_len_at ph offset
  s ← slice ph (offset + sizeof_exh) len
  rest ← exh_payloads_from ph left (u32 (offset + (len + sizeof_exh)))
  ok (s ∷ rest)

unfoldable pub get_exh_payloads : Message → Outcome (List Bytes)
get_exh_payloads m = do
  ph ← get_head m
  exhcnt ← read_u8 ph 13
  exh_payloads_from ph exhcnt sizeof_head

-- The loop of `get_exh_8bit()`: the header struct of each entry.
unfoldable pub exh_heads_from : Bytes → ℕ → ℕ → Outcome (List Exh)
exh_heads_from ph zero offset = ok []
exh_heads_from ph (suc left) offset = do
  exhead ← load_exh ph offset
  rest ← exh_heads_from ph left (u32 (offset + (exhead.len + sizeof_exh)))
  ok (exhead ∷ rest)

unfoldable pub get_exh_heads : Message → Outcome (List Exh)
get_exh_heads m = do ph ← get_head m; exhcnt ← read_u8 ph 13; exh_heads_from ph exhcnt sizeof_head

-- The loop that the three accessors with a subscript share: the offset of entry `id`.
unfoldable pub exh_seek : Bytes → ℕ → ℕ → Outcome ℕ
exh_seek ph zero offset = ok offset
exh_seek ph (suc left) offset = do
  len ← exh_len_at ph offset
  exh_seek ph left (u32 (offset + (len + sizeof_exh)))

unfoldable pub read_exh : Bytes → ℕ → Outcome (Lookup Bytes)
read_exh ph id = do
  offset ← exh_seek ph id sizeof_head
  len ← exh_len_at ph offset
  s ← slice ph offset (len + sizeof_exh)
  ok (found s)

-- `get_exh(s, id)`
unfoldable pub get_exh : Message → ℤ → Outcome (Lookup Bytes)
get_exh m id = do
  count ← get_exh_cnt m
  if bad_id id count then ok refused else (do ph ← get_head m; read_exh ph (rounds id))

unfoldable pub read_exh_payload : Bytes → ℕ → Outcome (Lookup Bytes)
read_exh_payload ph id = do
  offset ← exh_seek ph id sizeof_head
  len ← exh_len_at ph offset
  s ← slice ph (offset + sizeof_exh) len
  ok (found s)

-- `get_exh_payload(s, id)`
unfoldable pub get_exh_payload : Message → ℤ → Outcome (Lookup Bytes)
get_exh_payload m id = do
  count ← get_exh_cnt m
  if bad_id id count then ok refused else (do ph ← get_head m; read_exh_payload ph (rounds id))

unfoldable pub read_exh_head : Bytes → ℕ → Outcome (Lookup Exh)
read_exh_head ph id = do
  offset ← exh_seek ph id sizeof_head
  exh ← load_exh ph offset
  ok (found exh)

-- `get_exh_8bit(exh, id)`
unfoldable pub get_exh_head : Message → ℤ → Outcome (Lookup Exh)
get_exh_head m id = do
  count ← get_exh_cnt m
  if bad_id id count then ok refused else (do ph ← get_head m; read_exh_head ph (rounds id))

-- The block that `option.data()` points to in `dump_msg`: what `get_option` stored, or the empty
-- string, with the zero byte that ends it.
abbrev stored : Lookup Bytes → Bytes
stored refused = 0 ∷ []
stored (found s) = s ++ (0 ∷ [])

-- AAWS_OPH::dump_msg reads every field of the struct.
unfoldable pub dump_oph : Bytes → Outcome Bytes
dump_oph block = slice block 0 sizeof_oph

-- AAWS_HEAD::dump_msg reads every field but `hdrsv`.
unfoldable pub dump_head : Bytes → Outcome Bytes
dump_head ph = slice ph 0 36

-- `dump_msg`: the reads behind what it prints, the result being the text of the first option.
unfoldable pub dump_msg : Message → Outcome Bytes
dump_msg m = do
  ph ← get_head m
  dump_head ph
  option ← get_option m (pos 0)
  dump_oph (stored option)
  len ← oph_len_at (stored option) 0
  slice (stored option) sizeof_oph len
