-- ===== src/Message/ReadLists.antt =====
-- The three loops over the extension headers, each over a block that holds the area of the parts.
use moveon.Base.{
  ℕ, suc, ◌+◌, ◌^◌, ◌<◌, ◌≡◌, refl, List, [], ◌∷◌, map, Bytes, length, All, length-append, u32,
  arith, ok, Holds, Holds-left, Holds-right,
}
use moveon.Message.Layout.{Exh, sizeof_exh}
use moveon.Message.ReadExh.{exhs_from, exh_payloads_from, exh_heads_from}
use moveon.Message.Parts.{ExhPart, part_head, exh_block, exh_area}
use moveon.Message.ReadLaws.{
  Short, length-exh_block, exh_len_lem, exh_slice_lem, exh_text_lem, load_exh_lem, part_head-len,
}

-- One round of each loop, at an entry that the block holds.
module _ {block : Bytes} {offset : ℕ} (left : ℕ) (e : ExhPart)
    (h : Holds block offset (exh_block e)) (short : Short e)
    (room : offset + length (exh_block e) < 2 ^ 32) where
  abbrev next : ℕ
  next = offset + length (exh_block e)

  advance : u32 (offset + (length e.text + sizeof_exh)) ≡ next
  advance = omega (arith, length-exh_block e)

  exhs_from-suc :
      (rest : List Bytes)
      → exhs_from block left next ≡ ok rest
      → exhs_from block (suc left) offset ≡ ok (exh_block e ∷ rest)
  unfolding exhs_from
  exhs_from-suc rest tail = rw (exh_len_lem e h short, exh_slice_lem e h, advance, tail)

  exh_payloads_from-suc :
      (rest : List Bytes)
      → exh_payloads_from block left next ≡ ok rest
      → exh_payloads_from block (suc left) offset ≡ ok (e.text ∷ rest)
  unfolding exh_payloads_from
  exh_payloads_from-suc rest tail = rw (exh_len_lem e h short, exh_text_lem e h, advance, tail)

  exh_heads_from-suc :
      (rest : List Exh)
      → exh_heads_from block left next ≡ ok rest
      → exh_heads_from block (suc left) offset ≡ ok (part_head e ∷ rest)
  unfolding exh_heads_from
  exh_heads_from-suc rest tail = rw (load_exh_lem e h short, part_head-len e short, advance, tail)

-- What the loops return at the area of `es`.
pub record Lists (block : Bytes) (offset : ℕ) (es : List ExhPart) : Type 0 where
  pub blocks : exhs_from block (length es) offset ≡ ok (map exh_block es)
  pub texts : exh_payloads_from block (length es) offset ≡ ok (map (λ (e : ExhPart). e.text) es)
  pub heads : exh_heads_from block (length es) offset ≡ ok (map part_head es)

-- Each loop returns its part of every entry, in order.
pub exh_lists_lem :
    (es : List ExhPart) (block : Bytes) (offset : ℕ)
    → Holds block offset (exh_area es)
    → All Short es
    → offset + length (exh_area es) < 2 ^ 32
    → Lists block offset es
unfolding exhs_from exh_payloads_from exh_heads_from
exh_lists_lem [] block offset h short small = record { blocks = refl; texts = refl; heads = refl }
exh_lists_lem (e ∷ es) block offset h short small =
    let here : Holds block offset (exh_block e) = Holds-left (exh_block e) (exh_area es) h in
    let there : Holds block (offset + length (exh_block e)) (exh_area es) =
      Holds-right (exh_block e) (exh_area es) h in
    let whole = length-append (exh_block e) (exh_area es) in
    let room : offset + length (exh_block e) < 2 ^ 32 = omega arith in
    let tail = exh_lists_lem es block (offset + length (exh_block e)) there short.1 (omega arith) in
    record {
      blocks = exhs_from-suc (length es) e here short.0 room (map exh_block es) tail.blocks;
      texts = exh_payloads_from-suc (length es) e here short.0 room _ tail.texts;
      heads = exh_heads_from-suc (length es) e here short.0 room (map part_head es) tail.heads;
    }
