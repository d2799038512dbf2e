-- ===== src/Router/Uri.antt =====
-- service_router::get_uri, statement by statement.
use moveon.Base.{
  List, [], ◌∷◌, ◌++◌, none, some, Bytes, Outcome, ok, ◌>>=◌, slice, ◌==◌, if◌then◌else◌, codes,
}
use moveon.Base.Int.{pos}
use moveon.Message.Layout.{sizeof_oph, oph_len_at, oph_format_at}
use moveon.Message.Build.{Message}
use moveon.Message.Read.{get_exh_cnt, get_options, Lookup, refused, found}
use moveon.Message.ReadExh.{get_exh_payload, dump_msg}
use moveon.Router.Json.{Json}

abbrev pub uri_key : Bytes
uri_key = codes "service_uri"

-- The block of memory that a `std::string` points to.
abbrev pub text_block : Bytes → Bytes
text_block s = s ++ (0 ∷ [])

-- `exheadPayload` after `get_exh_payload`, whose result code is ignored.
abbrev pub or_empty : Lookup Bytes → Bytes
or_empty refused = []
or_empty (found s) = s

module _ (json : Json) where
  -- Parse a text, and take its member "service_uri"; the empty uri where either is missing.
  unfoldable pub member_uri : Bytes → Outcome Bytes
  member_uri text = elim (json.parse text) [
    | none ↦ ok []
    | some root ↦ (do
      present ← json.is_member root uri_key
      if present then json.string_at root uri_key else ok [])
  ]

  -- The `for` loop over the options: each is printed, and the first in JSON decides.
  unfoldable pub scan_options : List Bytes → Outcome Bytes
  scan_options [] = ok []
  scan_options (opt ∷ opts) =
      let rest = scan_options opts in
      do
        len ← oph_len_at (text_block opt) 0
        text ← slice (text_block opt) sizeof_oph len
        format ← oph_format_at (text_block opt) 0
        if format == 3 then member_uri text else rest

  unfoldable pub get_uri : Message → Outcome Bytes
  get_uri m = do
    printed ← dump_msg m
    exhs ← get_exh_cnt m
    if exhs == 0
        then (do opts ← get_options m; scan_options opts)
        else (do head ← get_exh_payload m (pos 0); member_uri (or_empty head))
