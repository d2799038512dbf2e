-- ===== src/Message/Truncated.antt =====
-- An extension text that is longer than its 16-bit length field can say.
use moveon.Base.{
  ℕ, suc, false, ◌+◌, ◌^◌, ◌≤◌, ◌≡◌, ◌≢◌, ap, ◌∙◌, List, ◌∷◌, Bytes, length, take, arith, ok,
  length-take, slice, u16, Holds, Holds-left, Holds-right, Holds-slice, Holds-read_u16,
}
use moveon.Base.Int.{pos}
use moveon.Message.Layout.{exh_bytes, exh_len_at, sizeof_exh, PayloadMethod}
use moveon.Message.Build.{Message, exh_head}
use moveon.Message.Read.{get_exh_cnt, bad_id, found}
use moveon.Message.ReadExh.{get_exh_payload, read_exh_payload, exh_seek}
use moveon.Message.Parts.{ExhPart, OptPart, Sizes, part_head, exh_block, exh_area}
use moveon.Message.Carries.{Laid, delivered, delivered-Laid}

module _ {block : Bytes} {offset : ℕ} (e : ExhPart) (h : Holds block offset (exh_block e)) where
  -- The length field holds the length mod 2 ^ 16.
  wrapped_len : exh_len_at block offset ≡ ok (u16 (length e.text))
  unfolding exh_bytes exh_head
  wrapped_len = Holds-read_u16 (exh_block e) 2 h (omega arith) ∙ ap ok (omega arith)

  start_of_text :
      slice block (offset + sizeof_exh) (u16 (length e.text))
      ≡ ok (take (u16 (length e.text)) e.text)
  unfolding exh_bytes
  start_of_text =
      let there = Holds-right (exh_bytes (part_head e)) e.text h in
      ap (λ n. slice block n (u16 (length e.text))) (omega arith)
      ∙ Holds-slice e.text 0 (u16 (length e.text)) there (omega arith)

first_is_there : (n : ℕ) → bad_id (pos 0) (suc n) ≡ false
unfolding bad_id
first_is_there n = ground arith

first_text-Laid :
    {m : Message} (e : ExhPart) (es : List ExhPart) {os : List OptPart}
    → Laid m (e ∷ es) os
    → get_exh_payload m (pos 0) ≡ ok (found (take (u16 (length e.text)) e.text))
unfolding get_exh_payload get_exh_cnt read_exh_payload exh_seek
first_text-Laid e es l =
    let here = Holds-left (exh_block e) (exh_area es) l.exhs_held in
    rw (l.opened, l.exh_count, first_is_there (length es), wrapped_len e here, start_of_text e here)

shorter : (text : Bytes) → 2 ^ 16 ≤ length text → take (u16 (length text)) text ≢ text
shorter text long same = omega (arith, ap length same, length-take (u16 (length text)) text)

-- Where the first extension text has 2 ^ 16 bytes or more and everything else fits, the receiver
-- gets its first bytes only, as many as the length mod 2 ^ 16, and that is another text.
pub first_text-truncated :
    (there here : Bytes) (e : ExhPart) (es : List ExhPart) (os : List OptPart)
    (method : PayloadMethod) (number : ℕ)
    → 38 ≤ length here
    → Sizes (e ∷ es) os
    → 2 ^ 16 ≤ length e.text
    → (get_exh_payload (delivered there here (e ∷ es) os method number) (pos 0)
        ≡ ok (found (take (u16 (length e.text)) e.text)))
      × (take (u16 (length e.text)) e.text ≢ e.text)
first_text-truncated there here e es os method number enough sizes long = (
  first_text-Laid e es (delivered-Laid there here (e ∷ es) os method number enough sizes),
  shorter e.text long,
)
