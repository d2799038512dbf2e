-- ===== src/Message/Parts.antt =====
-- What a message says: its extension headers and its options. `pack` sends them through the
-- builder of aaws_message.h, the extension headers first, which is the order that readers assume.
use moveon.Base.{ℕ, ◌+◌, ◌^◌, ◌<◌, List, [], ◌∷◌, ◌++◌, map, Bytes, length, flatten, All, u8, u32}
use moveon.Message.Layout.{
  Head, new_head, sizeof_head, exh_bytes, Exh, oph_bytes, PayloadMethod, method_code, OptFormat,
}
use moveon.Message.Build.{
  Message, new_message, option_head, append_option, exh_head, append_exh, submit,
}

-- The arguments of one `append_exh`, with the padding of its stack object.
pub record ExhPart : Type 0 where
  pub type : ℕ
  pub pad_0 : ℕ
  pub pad_1 : ℕ
  pub text : Bytes

-- The arguments of one `append_option`.
pub record OptPart : Type 0 where
  pub type : ℕ
  pub format : OptFormat
  pub text : Bytes

abbrev pub part_head : ExhPart → Exh
part_head e = exh_head e.pad_0 e.pad_1 e.type e.text

abbrev pub exh_block : ExhPart → Bytes
exh_block e = exh_bytes (part_head e) ++ e.text

abbrev pub opt_block : OptPart → Bytes
opt_block o = oph_bytes (option_head o.type o.format o.text) ++ o.text

abbrev pub exh_area : List ExhPart → Bytes
exh_area es = flatten (map exh_block es)

abbrev pub opt_area : List OptPart → Bytes
opt_area os = flatten (map opt_block os)

unfoldable pub add_exhs : List ExhPart → Message → Message
add_exhs [] m = m
add_exhs (e ∷ es) m = add_exhs es (append_exh e.pad_0 e.pad_1 e.type e.text m)

unfoldable pub add_opts : List OptPart → Message → Message
add_opts [] m = m
add_opts (o ∷ os) m = add_opts os (append_option o.type o.format o.text m)

unfoldable pub pack : Bytes → List ExhPart → List OptPart → PayloadMethod → ℕ → Message
pack beyond es os method sequence =
    submit method sequence (add_opts os (add_exhs es (new_message beyond)))

-- The header that a message of these parts carries.
abbrev pub packed_head : List ExhPart → List OptPart → PayloadMethod → ℕ → Head
packed_head es os method sequence = record new_head {
  exhcnt = u8 (length es);
  optcnt = u8 (length os);
  exhlen = u32 (length (exh_area es));
  optlen = u32 (length (opt_area os));
  payload_method = u8 (method_code method);
  seqence = u32 sequence;
  payload_len = u32 (sizeof_head + length (exh_area es) + length (opt_area os));
}

-- The counts fit one byte, each extension text fits 16 bits, and the whole fits 32 bits.
pub record Fits (es : List ExhPart) (os : List OptPart) : Type 0 where
  pub exhs_fit : length es < 256
  pub opts_fit : length os < 256
  pub texts_fit : All (λ (e : ExhPart). length e.text < 2 ^ 16) es
  pub total_fits : sizeof_head + (length (exh_area es) + length (opt_area os)) < 2 ^ 32

-- The same without the extension texts: a text may be longer than its length field can say.
pub record Sizes (es : List ExhPart) (os : List OptPart) : Type 0 where
  pub exhs_fit : length es < 256
  pub opts_fit : length os < 256
  pub total_fits : sizeof_head + (length (exh_area es) + length (opt_area os)) < 2 ^ 32

pub Fits-Sizes : {es : List ExhPart} {os : List OptPart} → Fits es os → Sizes es os
Fits-Sizes f = record { exhs_fit = f.exhs_fit; opts_fit = f.opts_fit; total_fits = f.total_fits }
