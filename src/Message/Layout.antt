-- ===== src/Message/Layout.antt =====
-- The structs of aaws_message.h and their bytes in memory, under the x86-64 ABI that the Linux
-- build uses: natural alignment, lowest byte first. AAWS_HEAD has 40 bytes and AAWS_OPH 8, both
-- with no padding; AAWS_EXH has 10, with padding after `type` and at its end.
use moveon.Base.{
  ℕ, ◌+◌, [], ◌∷◌, ◌++◌, Outcome, ok, Bytes, le2, le4, ◌>>=◌, slice, read_u8, read_u16, read_u32,
}

pub record Head : Type 0 where
  pub magic_0 : ℕ
  pub magic_1 : ℕ
  pub magic_2 : ℕ
  pub magic_3 : ℕ
  pub version : ℕ
  pub payload_len : ℕ
  pub payload_method : ℕ
  pub exhcnt : ℕ
  pub optcnt : ℕ
  pub hdrsv1 : ℕ
  pub exhlen : ℕ
  pub optlen : ℕ
  pub exhcrc32 : ℕ
  pub optcrc32 : ℕ
  pub seqence : ℕ
  pub hdrsv_0 : ℕ
  pub hdrsv_1 : ℕ
  pub hdrsv_2 : ℕ
  pub hdrsv_3 : ℕ

-- AAWS_HEAD()
abbrev pub new_head : Head
new_head = record {
  magic_0 = b'A';
  magic_1 = b'D';
  magic_2 = b'A';
  magic_3 = b'S';
  version = 0;
  payload_len = 0;
  payload_method = 0;
  exhcnt = 0;
  optcnt = 0;
  hdrsv1 = 0;
  exhlen = 0;
  optlen = 0;
  exhcrc32 = 0;
  optcrc32 = 0;
  seqence = 0;
  hdrsv_0 = 0;
  hdrsv_1 = 0;
  hdrsv_2 = 0;
  hdrsv_3 = 0;
}

abbrev pub sizeof_head : ℕ
sizeof_head = 40

-- The bytes at the address of the struct.
unfoldable pub head_bytes : Head → Bytes
head_bytes h =
    h.magic_0
    ∷ h.magic_1
    ∷ h.magic_2
    ∷ h.magic_3
    ∷ (le4 h.version
        ++ (le4 h.payload_len
            ++ (h.payload_method
                ∷ h.exhcnt
                ∷ h.optcnt
                ∷ h.hdrsv1
                ∷ (le4 h.exhlen
                    ++ (le4 h.optlen
                        ++ (le4 h.exhcrc32
                            ++ (le4 h.optcrc32
                                ++ (le4 h.seqence
                                    ++ (h.hdrsv_0 ∷ h.hdrsv_1 ∷ h.hdrsv_2 ∷ h.hdrsv_3 ∷ [])))))))))

-- An extension header; `pad_0` and `pad_1` are the object's padding bytes, which no code sets.
pub record Exh : Type 0 where
  pub type : ℕ
  pub pad_0 : ℕ
  pub len : ℕ
  pub rsv_0 : ℕ
  pub rsv_1 : ℕ
  pub rsv_2 : ℕ
  pub rsv_3 : ℕ
  pub rsv_4 : ℕ
  pub pad_1 : ℕ

-- AAWS_EXH(), in memory whose padding holds the two given bytes.
abbrev pub new_exh : ℕ → ℕ → Exh
new_exh pad_0 pad_1 = record {
  type = 0;
  pad_0 = pad_0;
  len = 0;
  rsv_0 = 0;
  rsv_1 = 0;
  rsv_2 = 0;
  rsv_3 = 0;
  rsv_4 = 0;
  pad_1 = pad_1;
}

abbrev pub sizeof_exh : ℕ
sizeof_exh = 10

unfoldable pub exh_bytes : Exh → Bytes
exh_bytes e =
    e.type
    ∷ e.pad_0
    ∷ (le2 e.len ++ (e.rsv_0 ∷ e.rsv_1 ∷ e.rsv_2 ∷ e.rsv_3 ∷ e.rsv_4 ∷ e.pad_1 ∷ []))

-- `*(AAWS_EXH *)(block + offset)`: a copy of the struct.
unfoldable pub load_exh : Bytes → ℕ → Outcome Exh
load_exh block offset = do
  bytes ← slice block offset sizeof_exh
  type ← read_u8 bytes 0
  pad_0 ← read_u8 bytes 1
  len ← read_u16 bytes 2
  rsv_0 ← read_u8 bytes 4
  rsv_1 ← read_u8 bytes 5
  rsv_2 ← read_u8 bytes 6
  rsv_3 ← read_u8 bytes 7
  rsv_4 ← read_u8 bytes 8
  pad_1 ← read_u8 bytes 9
  ok (record {
    type = type;
    pad_0 = pad_0;
    len = len;
    rsv_0 = rsv_0;
    rsv_1 = rsv_1;
    rsv_2 = rsv_2;
    rsv_3 = rsv_3;
    rsv_4 = rsv_4;
    pad_1 = pad_1;
  })

pub record Oph : Type 0 where
  pub type : ℕ
  pub format : ℕ
  pub rsv_0 : ℕ
  pub rsv_1 : ℕ
  pub len : ℕ

-- AAWS_OPH()
abbrev pub new_oph : Oph
new_oph = record { type = 0; format = 0; rsv_0 = 0; rsv_1 = 0; len = 0 }

abbrev pub sizeof_oph : ℕ
sizeof_oph = 8

unfoldable pub oph_bytes : Oph → Bytes
oph_bytes o = o.type ∷ o.format ∷ o.rsv_0 ∷ o.rsv_1 ∷ le4 o.len

-- The fields that the code reads through an `AAWS_OPH *` or an `AAWS_EXH *`.
abbrev pub oph_format_at : Bytes → ℕ → Outcome ℕ
oph_format_at block offset = read_u8 block (offset + 1)

abbrev pub oph_len_at : Bytes → ℕ → Outcome ℕ
oph_len_at block offset = read_u32 block (offset + 4)

abbrev pub exh_len_at : Bytes → ℕ → Outcome ℕ
exh_len_at block offset = read_u16 block (offset + 2)

-- enum payload_method, with its enumerators' values.
pub data PayloadMethod : Type 0 where
  none_method req ack message confirm : PayloadMethod

unfoldable pub method_code : PayloadMethod → ℕ
method_code none_method = 0
method_code req = 1
method_code ack = 2
method_code message = 3
method_code confirm = 4

-- enum optformat
pub data OptFormat : Type 0 where
  fmt_none fmt_text fmt_binary fmt_json fmt_protobuf : OptFormat

unfoldable pub format_code : OptFormat → ℕ
format_code fmt_none = 0
format_code fmt_text = 1
format_code fmt_binary = 2
format_code fmt_json = 3
format_code fmt_protobuf = 4
