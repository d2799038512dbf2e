-- ===== src/Router/Laws.antt =====
-- What `get_uri` answers on packed messages.
use moveon.Base.{
  ℕ, suc, ◌^◌, ◌%◌, ◌≤◌, ◌<◌, ◌≡◌, refl, ap, ◌∙◌, List, [], ◌∷◌, map, Bytes, length, length-append,
  arith, Outcome, ok, undefined, slice, slice-fits, slice-past, Holds, Holds-right, Holds-read_u8,
  ◌==◌, if◌then◌else◌, Bool, true, false, Holds-slice_all,
}
use moveon.Base.Int.{pos}
use moveon.Message.Layout.{
  sizeof_oph, oph_bytes, oph_format_at, PayloadMethod, OptFormat, fmt_none, fmt_json, format_code,
}
use moveon.Message.Build.{Message, option_head}
use moveon.Message.ReadExh.{dump_msg, dump_head, dump_oph}
use moveon.Message.Parts.{ExhPart, OptPart, Fits, opt_block, opt_area}
use moveon.Message.ReadLaws.{opt_len_lem, length-opt_block}
use moveon.Message.Carries.{Carries, delivered, delivered-Carries}
use moveon.Message.RoundTrip.{get_exh_cnt-Carries, get_options-Carries}
use moveon.Message.Subscripts.{get_exh_payload-Carries}
use moveon.Message.Options.{get_option-Carries, get_option-Carries_none}
use moveon.Router.Json.{Json}
use moveon.Router.Uri.{text_block, member_uri, scan_options, get_uri}

abbrev is_json : OptFormat → Bool
is_json fmt_json = true
is_json _ = false

module _ (json : Json) where
  -- The intended routing, on what the message says: the text of the first option in JSON.
  abbrev pub route_options : List OptPart → Outcome Bytes
  route_options [] = ok []
  route_options (o ∷ os) =
      let rest = route_options os in if is_json o.format then member_uri json o.text else rest

  -- The first extension header decides where there is one, and the options otherwise.
  abbrev pub route : List ExhPart → List OptPart → Outcome Bytes
  route [] os = route_options os
  route (e ∷ es) os = member_uri json e.text

text-Holds : (o : OptPart) → Holds (text_block (opt_block o)) 0 (opt_block o)
text-Holds o = record { before = []; after = 0 ∷ []; split = refl; at_offset = refl }

format_code_lem :
    (fmt : OptFormat)
    → (format_code fmt % 256 ≡ format_code fmt) × ((format_code fmt == 3) ≡ is_json fmt)
unfolding format_code
format_code_lem fmt_none = (refl, refl)
format_code_lem _ = (refl, refl)

format_lem : (o : OptPart) → oph_format_at (text_block (opt_block o)) 0 ≡ ok (format_code o.format)
unfolding oph_bytes option_head
format_lem o =
    Holds-read_u8 (opt_block o) 1 (text-Holds o) (omega arith) ∙ ap ok (format_code_lem o.format).0

option_text_lem :
    (o : OptPart) → slice (text_block (opt_block o)) sizeof_oph (length o.text) ≡ ok o.text
unfolding oph_bytes
option_text_lem o =
    Holds-slice_all o.text (length o.text)
      (Holds-right (oph_bytes (option_head o.type o.format o.text)) o.text (text-Holds o)) refl

scan_options_lem :
    (json : Json) (os : List OptPart)
    → length (opt_area os) < 2 ^ 32
    → scan_options json (map opt_block os) ≡ route_options json os
unfolding scan_options
scan_options_lem json [] small = refl
scan_options_lem json (o ∷ os) small =
    let whole = length-append (opt_block o) (opt_area os) in
    let size = length-opt_block o in
    rw (
      opt_len_lem o (text-Holds o) (omega arith),
      option_text_lem o,
      format_lem o,
      (format_code_lem o.format).1,
      scan_options_lem json os (omega arith),
    )

module _ {m : Message} {es : List ExhPart} where
  head_dumped : {os : List OptPart} (c : Carries m es os) → (b : Bytes) × (dump_head c.mem ≡ ok b)
  unfolding dump_head
  head_dumped c = (_, slice-fits c.mem 0 36 (omega (arith, c.mem_length)))

  dump_msg_lem :
      {o : OptPart} {os : List OptPart} (c : Carries m es (o ∷ os))
      → length o.text < 2 ^ 32
      → dump_msg m ≡ ok o.text
  unfolding dump_msg dump_oph
  dump_msg_lem {o} c small =
      rw
        (
          c.opened,
          (head_dumped c).1,
          get_option-Carries c,
          slice-fits (text_block (opt_block o)) 0 sizeof_oph header_fits,
          opt_len_lem o (text-Holds o) small,
        )
        (option_text_lem o)
    where
      header_fits : 8 ≤ length (text_block (opt_block o))
      header_fits = omega (arith, length-append (opt_block o) (0 ∷ []), length-opt_block o)

  -- With no option `option` stays empty, and its first 8 bytes are read all the same.
  dump_msg_none : Carries m es [] → dump_msg m ≡ undefined
  unfolding dump_msg dump_oph
  dump_msg_none c = rw (
    c.opened,
    (head_dumped c).1,
    get_option-Carries_none c,
    slice-past (0 ∷ []) 0 sizeof_oph (omega arith),
  )

first_text_fits :
    {m : Message} {es : List ExhPart} {o : OptPart} {os : List OptPart}
    → Carries m es (o ∷ os)
    → (length o.text < 2 ^ 32) × (length (opt_area (o ∷ os)) < 2 ^ 32)
first_text_fits {o} {os} c =
    omega (arith, c.total_fits, length-append (opt_block o) (opt_area os), length-opt_block o)

suc_is_not_zero : (n : ℕ) → (suc n == 0) ≡ false
suc_is_not_zero n = ground arith

get_uri-Carries :
    (json : Json) {m : Message} (es : List ExhPart) {o : OptPart} {os : List OptPart}
    → Carries m es (o ∷ os)
    → get_uri json m ≡ route json es (o ∷ os)
unfolding get_uri
get_uri-Carries json [] c =
    let (small, area_small) = first_text_fits c in
    rw (
      dump_msg_lem c small,
      get_exh_cnt-Carries c,
      get_options-Carries c,
      scan_options_lem json _ area_small,
    )
get_uri-Carries json (e ∷ es) c =
    let (small, area_small) = first_text_fits c in
    rw (
      dump_msg_lem c small,
      get_exh_cnt-Carries c,
      get_exh_payload-Carries c (pos 0),
      suc_is_not_zero (length es),
    )

module _ (json : Json) (there here : Bytes) (es : List ExhPart) (method : PayloadMethod)
    (number : ℕ) (enough : 38 ≤ length here) where
  pub get_uri-pack :
      (o : OptPart) (os : List OptPart)
      → Fits es (o ∷ os)
      → get_uri json (delivered there here es (o ∷ os) method number) ≡ route json es (o ∷ os)
  get_uri-pack o os fits =
      get_uri-Carries json es (delivered-Carries there here es (o ∷ os) method number enough fits)

  -- A packed message that fits and has no option makes `get_uri` read outside an empty string,
  -- whatever its extension headers are.
  pub get_uri-undefined :
      Fits es [] → get_uri json (delivered there here es [] method number) ≡ undefined
  unfolding get_uri
  get_uri-undefined fits =
      rw (dump_msg_none (delivered-Carries there here es [] method number enough fits))
