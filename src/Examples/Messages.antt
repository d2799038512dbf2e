-- ===== src/Examples/Messages.antt =====
-- The theorems on messages, applied.
use moveon.Message.Layout.{exh_bytes, oph_bytes, method_code, req, head_bytes}
use moveon.Message.Read.{
  method_name, get_options, get_option, get_exh_cnt, get_opt_cnt, get_exh_size, get_opt_size, size,
  sequence, get_payload_method, refused,
}
use moveon.Message.Parts.{
  add_opts, add_exhs, Fits, part_head, exh_block, opt_block, exh_area, opt_area, pack, packed_head,
}
use moveon.Message.Build.{initial_payload, Message, new_message, submit, append_exh, append_option}
use moveon.Base.{◌≡◌, refl, [], ◌∷◌, ◌++◌, ok, undefined, codes, inr, map, length, arith, u32}
use moveon.Base.Int.{pos, negsuc}
use moveon.Message.ReadExh.{
  get_exhs, get_exh_payloads, get_exh_heads, get_exh, get_exh_payload, get_exh_head,
}
use moveon.Message.BuildLaws.{pack_lem}
use moveon.Message.RoundTrip.{unpack-pack, header-pack}
use moveon.Message.Subscripts.{subscript-pack}
use moveon.Message.Options.{first_option-pack, later_option-undefined}
use moveon.Message.Local.{exh, option, perform_all, submit-payload_len}
use moveon.Examples.Samples.{zeros, chat_exh, one_exh, first_opt, second_opt, sample}

pub sample-Fits : Fits one_exh (first_opt ∷ second_opt ∷ [])
unfolding exh_bytes oph_bytes
sample-Fits = record {
  exhs_fit = omega arith;
  opts_fit = omega arith;
  texts_fit = (omega arith, tt);
  total_fits = omega arith;
}

pack_lem_example :
    (pack zeros one_exh (first_opt ∷ second_opt ∷ []) req 5).payload
    ≡ head_bytes (packed_head one_exh (first_opt ∷ second_opt ∷ []) req 5)
      ++ (exh_area one_exh ++ opt_area (first_opt ∷ second_opt ∷ []))
pack_lem_example = pack_lem zeros one_exh (first_opt ∷ second_opt ∷ []) req 5 (omega arith)

unpack-pack_example :
    (get_exhs sample ≡ ok (map exh_block one_exh))
    × (get_exh_payloads sample ≡ ok (codes "/chat" ∷ []))
    × (get_exh_heads sample ≡ ok (map part_head one_exh))
    × (get_options sample ≡ ok (opt_block first_opt ∷ opt_block second_opt ∷ []))
unpack-pack_example =
    unpack-pack zeros zeros one_exh (first_opt ∷ second_opt ∷ []) req 5 (omega arith) sample-Fits

header-pack_example :
    (get_exh_cnt sample ≡ ok 1)
    × (get_opt_cnt sample ≡ ok 2)
    × (get_exh_size sample ≡ ok 15)
    × (get_opt_size sample ≡ ok 23)
    × (size sample ≡ ok (length (pack zeros one_exh (first_opt ∷ second_opt ∷ []) req 5).payload))
    × (sequence sample ≡ ok (u32 5))
    × (get_payload_method sample ≡ ok (codes "REQ"))
unfolding exh_bytes oph_bytes method_name method_code
header-pack_example =
    header-pack zeros zeros one_exh (first_opt ∷ second_opt ∷ []) req 5 (omega arith) sample-Fits

subscript-pack_example :
    (get_exh sample (negsuc 0) ≡ ok refused)
    × (get_exh_payload sample (negsuc 0) ≡ ok refused)
    × (get_exh_head sample (negsuc 0) ≡ ok refused)
subscript-pack_example =
    subscript-pack zeros zeros one_exh (first_opt ∷ second_opt ∷ []) req 5 (omega arith) sample-Fits
      (negsuc 0)

first_option-pack_example : get_option sample (pos 2) ≡ ok refused
first_option-pack_example =
    first_option-pack zeros zeros one_exh first_opt (second_opt ∷ []) req 5 (omega arith)
      sample-Fits (pos 2) (inr refl)

later_option-undefined_example : get_option sample (pos 1) ≡ undefined
unfolding pack exh_bytes submit oph_bytes head_bytes add_opts append_option add_exhs append_exh
    new_message initial_payload
later_option-undefined_example =
    later_option-undefined zeros zeros one_exh first_opt (second_opt ∷ []) req 5 (omega arith)
      sample-Fits 0 (omega arith) (omega arith)

-- A message under construction, an option before its extension header.
abbrev under_construction : Message
under_construction = perform_all (option first_opt ∷ exh chat_exh ∷ []) (new_message zeros)

submit-payload_len_example :
    ((submit req 5 under_construction).header.payload_len
      ≡ u32 (length (submit req 5 under_construction).payload))
    × (length (submit req 5 under_construction).payload ≡ length under_construction.payload)
submit-payload_len_example =
    submit-payload_len zeros (option first_opt ∷ exh chat_exh ∷ []) req 5 (omega arith)
