-- ===== src/Message/Carries.antt =====
-- A message object whose block of memory is laid out as `Parts` describes: what the readers rely
-- on, and the proof that a packed message arrives so.
use moveon.Base.{
  ℕ, ◌+◌, ◌^◌, ◌≤◌, ◌<◌, ◌≡◌, ap, ◌∙◌, List, [], ◌∷◌, ◌++◌, Bytes, length, All, length-append,
  arith, ok, read_u8, read_u32, Holds, Holds-left, Holds-right,
}
use moveon.Message.Layout.{Head, head_bytes, PayloadMethod}
use moveon.Message.Build.{Message, received_message}
use moveon.Message.Read.{get_head}
use moveon.Message.Parts.{
  ExhPart, OptPart, exh_area, opt_area, pack, packed_head, Fits, Sizes, Fits-Sizes,
}
use moveon.Message.BuildLaws.{pack_lem}
use moveon.Message.ReadLaws.{Short}
use moveon.Message.Received.{block, get_head-from_wire, rest-Holds, Fields, fields_lem}

-- The layout, whatever the length fields of the extension headers say.
pub record Laid (m : Message) (es : List ExhPart) (os : List OptPart) : Type 0 where
  pub mem : Bytes
  pub opened : get_head m ≡ ok mem
  pub exh_count : read_u8 mem 13 ≡ ok (length es)
  pub opt_count : read_u8 mem 14 ≡ ok (length os)
  pub exh_end : read_u32 mem 16 ≡ ok (length (exh_area es))
  pub opt_end : read_u32 mem 20 ≡ ok (length (opt_area os))
  pub exhs_held : Holds mem 40 (exh_area es)
  pub opts_held : Holds mem (40 + length (exh_area es)) (opt_area os)
  pub total_fits : 40 + (length (exh_area es) + length (opt_area os)) < 2 ^ 32
  pub mem_length : length mem ≡ 41 + (length (exh_area es) + length (opt_area os))

pub record Carries (m : Message) (es : List ExhPart) (os : List OptPart) : Type 0 where
  pub laid : Laid m es os
  pub open laid use *
  pub texts_short : All Short es

-- The receiver's object for the bytes that the sender's `get_payload` gives.
abbrev pub delivered : Bytes → Bytes → List ExhPart → List OptPart → PayloadMethod → ℕ → Message
delivered there here es os method number =
    received_message there (pack here es os method number).payload

module _ (there here : Bytes) (es : List ExhPart) (os : List OptPart) (method : PayloadMethod)
    (number : ℕ) (enough : 38 ≤ length here) (fits : Sizes es os) where
  abbrev head : Head
  head = packed_head es os method number

  abbrev pub body : Bytes
  body = exh_area es ++ opt_area os

  abbrev pub delivered_mem : Bytes
  delivered_mem = block there head body

  pub delivered_opened : get_head (delivered there here es os method number) ≡ ok delivered_mem
  delivered_opened =
      ap (λ text. get_head (received_message there text)) (pack_lem here es os method number enough)
      ∙ get_head-from_wire there head body

  pub delivered_fields : Fields there head body
  delivered_fields =
      fields_lem there head body (omega arith) (omega arith) (omega arith) (omega arith)

  mem_size : length delivered_mem ≡ 41 + (length (exh_area es) + length (opt_area os))
  unfolding head_bytes
  mem_size = omega (
    arith,
    length-append (head_bytes head ++ body) (0 ∷ []),
    length-append (exh_area es) (opt_area os),
  )

  pub delivered-Laid : Laid (delivered there here es os method number) es os
  delivered-Laid = record {
    mem = delivered_mem;
    opened = delivered_opened;
    exh_count = delivered_fields.reads_exhcnt ∙ ap ok (omega (arith, fits.exhs_fit));
    opt_count = delivered_fields.reads_optcnt ∙ ap ok (omega (arith, fits.opts_fit));
    exh_end = delivered_fields.reads_exhlen ∙ ap ok (omega (arith, fits.total_fits));
    opt_end = delivered_fields.reads_optlen ∙ ap ok (omega (arith, fits.total_fits));
    exhs_held = Holds-left (exh_area es) (opt_area os) (rest-Holds there head body);
    opts_held = Holds-right (exh_area es) (opt_area os) (rest-Holds there head body);
    total_fits = fits.total_fits;
    mem_length = mem_size;
  }

  pub payload_length :
      length (pack here es os method number).payload
      ≡ 40 + (length (exh_area es) + length (opt_area os))
  unfolding head_bytes
  payload_length =
      ap length (pack_lem here es os method number enough)
      ∙ omega (arith, length-append (exh_area es) (opt_area os))

pub delivered-Carries :
    (there here : Bytes) (es : List ExhPart) (os : List OptPart) (method : PayloadMethod)
    (number : ℕ)
    → 38 ≤ length here
    → Fits es os
    → Carries (delivered there here es os method number) es os
delivered-Carries there here es os method number enough fits = record {
  laid = delivered-Laid there here es os method number enough (Fits-Sizes fits);
  texts_short = fits.texts_fit;
}
