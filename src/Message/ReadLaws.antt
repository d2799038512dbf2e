-- ===== src/Message/ReadLaws.antt =====
-- The loops of the receiving side over a block that holds the areas which `Parts` describes.
use moveon.Base.{
  ℕ, suc, ◌+◌, ◌^◌, ◌<◌, ◌≡◌, refl, subst, ap, ◌∙◌, List, [], ◌∷◌, ◌++◌, map, Bytes, length, All,
  length-append, u32, arith, ok, slice, read_u8, read_u16, Holds, Holds-left, Holds-right,
  Holds-slice_all, Holds-read_u16, Holds-read_u32,
}
use moveon.Message.Layout.{
  exh_bytes, sizeof_exh, load_exh, oph_bytes, sizeof_oph, oph_len_at, exh_len_at,
}
use moveon.Message.Build.{option_head, exh_head}
use moveon.Message.Read.{options_from}
use moveon.Message.ReadExh.{exh_seek}
use moveon.Message.Parts.{ExhPart, OptPart, part_head, exh_block, opt_block, exh_area, opt_area}

pub length-exh_block : (e : ExhPart) → length (exh_block e) ≡ length e.text + 10
unfolding exh_bytes
length-exh_block e = omega arith

pub length-opt_block : (o : OptPart) → length (opt_block o) ≡ length o.text + 8
unfolding oph_bytes
length-opt_block o = omega arith

module _ {block : Bytes} {offset : ℕ} (o : OptPart) (h : Holds block offset (opt_block o)) where
  pub opt_len_lem : length o.text < 2 ^ 32 → oph_len_at block offset ≡ ok (length o.text)
  unfolding oph_bytes option_head
  opt_len_lem small = Holds-read_u32 (opt_block o) 4 h (omega arith) ∙ ap ok (omega arith)

  pub opt_slice_lem : (n : ℕ) → n ≡ length o.text + 8 → slice block offset n ≡ ok (opt_block o)
  opt_slice_lem n e = Holds-slice_all (opt_block o) n h (omega (arith, length-opt_block o))

options_from-suc :
    (block : Bytes) (left offset len : ℕ) (s : Bytes) (rest : List Bytes)
    → oph_len_at block offset ≡ ok len
    → slice block offset (u32 (len + sizeof_oph)) ≡ ok s
    → options_from block left (u32 (offset + u32 (len + sizeof_oph))) ≡ ok rest
    → options_from block (suc left) offset ≡ ok (s ∷ rest)
unfolding options_from
options_from-suc block left offset len s rest e f g = rw (e, f, g)

pub options_from_lem :
    (os : List OptPart) (block : Bytes) (offset : ℕ)
    → Holds block offset (opt_area os)
    → offset + length (opt_area os) < 2 ^ 32
    → options_from block (length os) offset ≡ ok (map opt_block os)
options_from_lem [] block offset h small = unfold options_from in refl
options_from_lem (o ∷ os) block offset h small =
    let here : Holds block offset (opt_block o) = Holds-left (opt_block o) (opt_area os) h in
    let there : Holds block (offset + length (opt_block o)) (opt_area os) =
      Holds-right (opt_block o) (opt_area os) h in
    let whole = length-append (opt_block o) (opt_area os) in
    let block_size = length-opt_block o in
    options_from-suc block (length os) offset (length o.text) (opt_block o) (map opt_block os)
      (opt_len_lem o here (omega arith)) (opt_slice_lem o here _ (omega arith))
      (ap (options_from block (length os)) (omega arith)
        ∙ options_from_lem os block (offset + length (opt_block o)) there (omega arith))

abbrev pub Short : ExhPart → Type 0
Short e = length e.text < 2 ^ 16

pub part_head-len : (e : ExhPart) → Short e → (part_head e).len ≡ length e.text
unfolding exh_head
part_head-len e short = omega arith

module _ {block : Bytes} {offset : ℕ} (e : ExhPart) (h : Holds block offset (exh_block e)) where
  pub exh_len_lem : Short e → exh_len_at block offset ≡ ok (length e.text)
  unfolding exh_bytes exh_head
  exh_len_lem small = Holds-read_u16 (exh_block e) 2 h (omega arith) ∙ ap ok (omega arith)

  pub exh_slice_lem : slice block offset (length e.text + sizeof_exh) ≡ ok (exh_block e)
  exh_slice_lem = Holds-slice_all (exh_block e) _ h (omega (arith, length-exh_block e))

  pub exh_text_lem : slice block (offset + sizeof_exh) (length e.text) ≡ ok e.text
  unfolding exh_bytes
  exh_text_lem =
      Holds-slice_all e.text (length e.text) (Holds-right (exh_bytes (part_head e)) e.text h) refl

  pub load_exh_lem : Short e → load_exh block offset ≡ ok (part_head e)
  unfolding load_exh exh_bytes exh_head read_u8 read_u16 slice
  load_exh_lem small =
      rw
        (Holds-slice_all (exh_bytes (part_head e)) sizeof_exh
          (Holds-left (exh_bytes (part_head e)) e.text h) refl)
        (ap (λ n. ok (record (part_head e) { len = n })) (omega arith))

-- The offset behind the first `k` entries.
pub exh_seek_lem :
    (pre post : List ExhPart) (block : Bytes) (offset : ℕ)
    → Holds block offset (exh_area (pre ++ post))
    → All Short pre
    → offset + length (exh_area (pre ++ post)) < 2 ^ 32
    → (exh_seek block (length pre) offset ≡ ok (offset + length (exh_area pre)))
      × Holds block (offset + length (exh_area pre)) (exh_area post)
unfolding exh_seek
exh_seek_lem [] post block offset h short small =
    (ap ok (omega arith), subst (λ n. Holds block n (exh_area post)) (omega arith) h)
exh_seek_lem (e ∷ pre) post block offset h short small =
    let area = exh_area (pre ++ post) in
    let here : Holds block offset (exh_block e) = Holds-left (exh_block e) area h in
    let there : Holds block (offset + length (exh_block e)) area =
      Holds-right (exh_block e) area h in
    let whole = length-append (exh_block e) area in
    let front = length-append (exh_block e) (exh_area pre) in
    let block_size = length-exh_block e in
    let next : u32 (offset + (length e.text + sizeof_exh)) ≡ offset + length (exh_block e) =
      omega arith in
    let (found, rest) =
      exh_seek_lem pre post block (offset + length (exh_block e)) there short.1 (omega arith) in
    let total : offset + length (exh_block e) + length (exh_area pre)
        ≡ offset + length (exh_block e ++ exh_area pre) =
      omega arith in
    (
      rw (exh_len_lem e here short.0, next, found) (ap ok total),
      subst (λ n. Holds block n (exh_area post)) total rest,
    )
