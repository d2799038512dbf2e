-- ===== src/Message/Received.antt =====
-- A received message whose text was packed from parts: what its block of memory holds, and what
-- the accessors of its header read.
use moveon.Base.{
  ◌^◌, ◌<◌, ◌≡◌, refl, ap, ◌∙◌, [], ◌∷◌, ◌++◌, Bytes, arith, of_le-le4, ok, read_u8, read_u32,
  Holds, Holds-left, Holds-right, Holds-read_u8, Holds-read_u32,
}
use moveon.Message.Layout.{Head, head_bytes}
use moveon.Message.Build.{Message, received_message}
use moveon.Message.Read.{get_head}

module _ (beyond : Bytes) (h : Head) (rest : Bytes) where
  abbrev pub from_wire : Message
  from_wire = received_message beyond (head_bytes h ++ rest)

  abbrev pub block : Bytes
  block = (head_bytes h ++ rest) ++ (0 ∷ [])

  pub get_head-from_wire : get_head from_wire ≡ ok block
  unfolding get_head received_message
  get_head-from_wire = refl

  pub block-Holds : Holds block 0 (head_bytes h ++ rest)
  block-Holds = record { before = []; after = 0 ∷ []; split = refl; at_offset = refl }

  pub rest-Holds : Holds block 40 rest
  unfolding head_bytes
  rest-Holds = Holds-right (head_bytes h) rest block-Holds

  abbrev head-Holds : Holds block 0 (head_bytes h)
  head-Holds = Holds-left (head_bytes h) rest block-Holds

  -- The bytes of the header as the accessors read them.
  pub record Fields : Type 0 where
    pub reads_payload_len : read_u32 block 8 ≡ ok h.payload_len
    pub reads_method : read_u8 block 12 ≡ ok h.payload_method
    pub reads_exhcnt : read_u8 block 13 ≡ ok h.exhcnt
    pub reads_optcnt : read_u8 block 14 ≡ ok h.optcnt
    pub reads_exhlen : read_u32 block 16 ≡ ok h.exhlen
    pub reads_optlen : read_u32 block 20 ≡ ok h.optlen
    pub reads_seqence : read_u32 block 32 ≡ ok h.seqence

  pub fields_lem :
      h.payload_len < 2 ^ 32 → h.exhlen < 2 ^ 32 → h.optlen < 2 ^ 32 → h.seqence < 2 ^ 32 → Fields
  unfolding head_bytes
  fields_lem p x o s = record {
    reads_payload_len =
        Holds-read_u32 (head_bytes h) 8 head-Holds (omega arith)
        ∙ ap ok (of_le-le4 h.payload_len p);
    reads_method = Holds-read_u8 (head_bytes h) 12 head-Holds (omega arith);
    reads_exhcnt = Holds-read_u8 (head_bytes h) 13 head-Holds (omega arith);
    reads_optcnt = Holds-read_u8 (head_bytes h) 14 head-Holds (omega arith);
    reads_exhlen =
        Holds-read_u32 (head_bytes h) 16 head-Holds (omega arith) ∙ ap ok (of_le-le4 h.exhlen x);
    reads_optlen =
        Holds-read_u32 (head_bytes h) 20 head-Holds (omega arith) ∙ ap ok (of_le-le4 h.optlen o);
    reads_seqence =
        Holds-read_u32 (head_bytes h) 32 head-Holds (omega arith) ∙ ap ok (of_le-le4 h.seqence s);
  }
