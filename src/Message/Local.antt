-- ===== src/Message/Local.antt =====
-- A message under construction: the sizes that its header counts, in any order of appends, and the
-- accessors applied to the sender's own object.
use moveon.Base.{
  ℕ, ◌+◌, ◌≤◌, ◌≡◌, List, [], ◌∷◌, ◌++◌, Bytes, length, length-append, length-drop, u32, arith,
}
use moveon.Message.Layout.{sizeof_head, head_bytes, exh_bytes, oph_bytes, PayloadMethod}
use moveon.Message.Build.{
  Message, new_message, option_head, append_option, append_exh, submit, submitted_head,
}
use moveon.Message.Parts.{ExhPart, OptPart, part_head}
use moveon.Message.BuildLaws.{length-initial_payload}

-- One call that adds to a message.
pub data Append : Type 0 where
  exh : ExhPart → Append
  option : OptPart → Append

abbrev pub perform : Append → Message → Message
perform (exh e) m = append_exh e.pad_0 e.pad_1 e.type e.text m
perform (option o) m = append_option o.type o.format o.text m

unfoldable pub perform_all : List Append → Message → Message
perform_all [] m = m
perform_all (a ∷ as') m = perform_all as' (perform a m)

-- The header's two lengths account for the payload, mod 2 ^ 32.
record IsCounted (m : Message) : Type 0 where
  pub has_head : 40 ≤ length m.payload
  pub counted : u32 (sizeof_head + m.header.exhlen + m.header.optlen) ≡ u32 (length m.payload)

length-append_two :
    (xs ys zs : Bytes) → length ((xs ++ ys) ++ zs) ≡ length xs + length ys + length zs
length-append_two xs ys zs = omega (arith, length-append (xs ++ ys) zs, length-append xs ys)

perform-IsCounted : (a : Append) (m : Message) → IsCounted m → IsCounted (perform a m)
unfolding append_exh append_option exh_bytes oph_bytes
perform-IsCounted (exh e) m c =
    let sizes = length-append_two m.payload (exh_bytes (part_head e)) e.text in
    record { has_head = omega arith; counted = omega arith }
perform-IsCounted (option o) m c =
    let sizes =
      length-append_two m.payload (oph_bytes (option_head o.type o.format o.text)) o.text in
    record { has_head = omega arith; counted = omega arith }

perform_all-IsCounted :
    (as' : List Append) (m : Message) → IsCounted m → IsCounted (perform_all as' m)
unfolding perform_all
perform_all-IsCounted [] m c = c
perform_all-IsCounted (a ∷ as') m c =
    perform_all-IsCounted as' (perform a m) (perform-IsCounted a m c)

new_message-IsCounted : (beyond : Bytes) → 38 ≤ length beyond → IsCounted (new_message beyond)
unfolding new_message
new_message-IsCounted beyond h =
    let size = length-initial_payload beyond h in
    record { has_head = omega arith; counted = omega arith }

-- Whatever is appended, in whatever order, `submit` records the payload's size mod 2 ^ 32 in the
-- header, and changes no byte count of the payload.
pub submit-payload_len :
    (beyond : Bytes) (as' : List Append) (method : PayloadMethod) (number : ℕ)
    → 38 ≤ length beyond
    → let m = perform_all as' (new_message beyond) in
      ((submit method number m).header.payload_len ≡ u32 (length (submit method number m).payload))
      × (length (submit method number m).payload ≡ length m.payload)
unfolding submit submitted_head head_bytes
submit-payload_len beyond as' method number enough =
    let m = perform_all as' (new_message beyond) in
    let c = perform_all-IsCounted as' (new_message beyond) (new_message-IsCounted beyond enough) in
    let rest = length-drop 40 m.payload in (omega arith, omega arith)
