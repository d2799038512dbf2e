-- ===== src/Message/BuildLaws.antt =====
-- What the builder of aaws_message.h writes.
use moveon.Base.{
  ℕ, ◌+◌, ◌^◌, ◌≤◌, ◌<◌, ◌≡◌, refl, sym, ap, ◌∙◌, List, [], ◌∷◌, ◌++◌, append-nil, append_assoc,
  Bytes, length, drop, length-append, length-take, drop-append, u8, u32, arith,
}
use moveon.Message.Layout.{Head, new_head, head_bytes, exh_bytes, oph_bytes, PayloadMethod}
use moveon.Message.Build.{
  Message, new_message, initial_payload, append_option, append_exh, submit, submitted_head,
}
use moveon.Message.Parts.{
  ExhPart, OptPart, exh_block, opt_block, exh_area, opt_area, add_exhs, add_opts, pack, packed_head,
}

-- A message with more payload, and more entries and bytes counted.
abbrev with_exhs : Message → Bytes → ℕ → ℕ → Message
with_exhs m payload cnt len = record m {
  payload = payload;
  header = record (m.header) { exhcnt = cnt; exhlen = len };
}

abbrev with_opts : Message → Bytes → ℕ → ℕ → Message
with_opts m payload cnt len = record m {
  payload = payload;
  header = record (m.header) { optcnt = cnt; optlen = len };
}

with_exhs_cong :
    (m : Message) (p q : Bytes) (c d l k : ℕ)
    → p ≡ q
    → c ≡ d
    → l ≡ k
    → with_exhs m p c l ≡ with_exhs m q d k
with_exhs_cong m p q c d l k e f g = λ i. with_exhs m (e i) (f i) (g i)

with_opts_cong :
    (m : Message) (p q : Bytes) (c d l k : ℕ)
    → p ≡ q
    → c ≡ d
    → l ≡ k
    → with_opts m p c l ≡ with_opts m q d k
with_opts_cong m p q c d l k e f g = λ i. with_opts m (e i) (f i) (g i)

length-exh_block : (e : ExhPart) → length (exh_block e) ≡ length e.text + 10
unfolding exh_bytes
length-exh_block e = omega arith

length-opt_block : (o : OptPart) → length (opt_block o) ≡ length o.text + 8
unfolding oph_bytes
length-opt_block o = omega arith

add_exhs_lem :
    (es : List ExhPart) (m : Message)
    → m.header.exhcnt < 256
    → m.header.exhlen < 2 ^ 32
    → add_exhs es m
      ≡ with_exhs m
          (m.payload ++ exh_area es)
          (u8 (m.header.exhcnt + length es))
          (u32 (m.header.exhlen + length (exh_area es)))
unfolding add_exhs append_exh
add_exhs_lem [] m c l =
    with_exhs_cong m _ _ _ _ _ _ (sym (append-nil _)) (omega arith) (omega arith)
add_exhs_lem (e ∷ es) m c l =
    add_exhs_lem es _ (omega arith) (omega arith)
    ∙ with_exhs_cong m _ _ _ _ _ _
        (ap (λ t. t ++ exh_area es) (append_assoc m.payload _ e.text)
          ∙ append_assoc m.payload (exh_block e) (exh_area es))
        (omega arith) (omega (arith, length-append (exh_block e) (exh_area es), length-exh_block e))

add_opts_lem :
    (os : List OptPart) (m : Message)
    → m.header.optcnt < 256
    → m.header.optlen < 2 ^ 32
    → add_opts os m
      ≡ with_opts m
          (m.payload ++ opt_area os)
          (u8 (m.header.optcnt + length os))
          (u32 (m.header.optlen + length (opt_area os)))
unfolding add_opts append_option
add_opts_lem [] m c l =
    with_opts_cong m _ _ _ _ _ _ (sym (append-nil _)) (omega arith) (omega arith)
add_opts_lem (o ∷ os) m c l =
    add_opts_lem os _ (omega arith) (omega arith)
    ∙ with_opts_cong m _ _ _ _ _ _
        (ap (λ t. t ++ opt_area os) (append_assoc m.payload _ o.text)
          ∙ append_assoc m.payload (opt_block o) (opt_area os))
        (omega arith) (omega (arith, length-append (opt_block o) (opt_area os), length-opt_block o))

pub length-initial_payload :
    (beyond : Bytes) → 38 ≤ length beyond → length (initial_payload beyond) ≡ 40
unfolding initial_payload
length-initial_payload beyond h = omega (arith, length-take 40 (0 ∷ 0 ∷ beyond))

body_after_head : (xs ys zs : Bytes) → length xs ≡ 40 → drop 40 ((xs ++ ys) ++ zs) ≡ ys ++ zs
body_after_head xs ys zs h =
    ap (drop 40) (append_assoc xs ys zs)
    ∙ ap (λ n. drop n (xs ++ (ys ++ zs))) (sym h)
    ∙ drop-append xs (ys ++ zs)

abbrev added_head : List ExhPart → List OptPart → Head
added_head es os = record new_head {
  exhcnt = u8 (length es);
  optcnt = u8 (length os);
  exhlen = u32 (length (exh_area es));
  optlen = u32 (length (opt_area os));
}

added_lem :
    (beyond : Bytes) (es : List ExhPart) (os : List OptPart)
    → add_opts os (add_exhs es (new_message beyond)) ≡ record (new_message beyond) {
      payload = (initial_payload beyond ++ exh_area es) ++ opt_area os;
      header = added_head es os;
    }
unfolding new_message
added_lem beyond es os =
    ap (add_opts os) (
      add_exhs_lem es (new_message beyond) (omega arith) (omega arith)
      ∙ with_exhs_cong (new_message beyond) _ _ _ (u8 (length es)) _ (u32 (length (exh_area es)))
          refl (omega arith) (omega arith))
    ∙ add_opts_lem os _ (omega arith) (omega arith)
    ∙ with_opts_cong
        (with_exhs (new_message beyond) (initial_payload beyond ++ exh_area es) (u8 (length es))
          (u32 (length (exh_area es))))
        _ _ _ (u8 (length os)) _ (u32 (length (opt_area os))) refl (omega arith) (omega arith)

submitted_head_lem :
    (es : List ExhPart) (os : List OptPart) (method : PayloadMethod) (sequence : ℕ)
    → submitted_head method sequence (added_head es os) ≡ packed_head es os method sequence
unfolding submitted_head
submitted_head_lem es os method sequence =
    ap (λ n. record (packed_head es os method sequence) { payload_len = n }) (omega arith)

-- Whatever the memory behind the two-byte literal held, a message packed from parts is the header
-- with their counts and lengths, then every extension block, then every option block.
pub pack_lem :
    (beyond : Bytes) (es : List ExhPart) (os : List OptPart) (method : PayloadMethod) (sequence : ℕ)
    → 38 ≤ length beyond
    → (pack beyond es os method sequence).payload
      ≡ head_bytes (packed_head es os method sequence) ++ (exh_area es ++ opt_area os)
unfolding pack submit
pack_lem beyond es os method sequence h =
    rw (added_lem beyond es os, submitted_head_lem es os method sequence)
      (ap (◌++◌ (head_bytes (packed_head es os method sequence))) (
        body_after_head (initial_payload beyond) (exh_area es) (opt_area os)
          (length-initial_payload beyond h)))
