-- ===== src/Message/RoundTrip.antt =====
-- What the receiver reads of a message that the sender packed: everything, in order.
use moveon.Base.{ℕ, ◌+◌, ◌≤◌, ◌≡◌, refl, ap, ◌∙◌, List, map, Bytes, length, u8, u32, arith, ok}
use moveon.Message.Layout.{sizeof_head, PayloadMethod, none_method, method_code}
use moveon.Message.Build.{Message}
use moveon.Message.Read.{
  size, sequence, get_exh_cnt, get_opt_cnt, get_exh_size, get_opt_size, get_options,
  get_payload_method, method_name,
}
use moveon.Message.ReadExh.{get_exhs, get_exh_payloads, get_exh_heads}
use moveon.Message.Parts.{
  ExhPart, OptPart, part_head, exh_block, opt_block, exh_area, opt_area, pack, Fits, Fits-Sizes,
}
use moveon.Message.ReadLaws.{options_from_lem}
use moveon.Message.ReadLists.{Lists, exh_lists_lem}
use moveon.Message.Carries.{
  Carries, delivered, delivered-Carries, delivered_opened, delivered_fields, payload_length,
}

module _ {m : Message} {es : List ExhPart} {os : List OptPart} (c : Carries m es os) where
  pub get_options-Carries : get_options m ≡ ok (map opt_block os)
  unfolding get_options
  get_options-Carries =
      rw (c.opened, c.exh_end, c.opt_count, first_option)
        (options_from_lem os c.mem _ c.opts_held (omega (arith, c.total_fits)))
    where
      first_option : u32 (sizeof_head + length (exh_area es)) ≡ 40 + length (exh_area es)
      first_option = omega (arith, c.total_fits)

  lists : Lists c.mem 40 es
  lists = exh_lists_lem es c.mem 40 c.exhs_held c.texts_short (omega (arith, c.total_fits))

  pub get_exhs-Carries : get_exhs m ≡ ok (map exh_block es)
  unfolding get_exhs
  get_exhs-Carries = rw (c.opened, c.exh_count) lists.blocks

  pub get_exh_payloads-Carries : get_exh_payloads m ≡ ok (map (λ (e : ExhPart). e.text) es)
  unfolding get_exh_payloads
  get_exh_payloads-Carries = rw (c.opened, c.exh_count) lists.texts

  pub get_exh_heads-Carries : get_exh_heads m ≡ ok (map part_head es)
  unfolding get_exh_heads
  get_exh_heads-Carries = rw (c.opened, c.exh_count) lists.heads

  pub get_exh_cnt-Carries : get_exh_cnt m ≡ ok (length es)
  unfolding get_exh_cnt
  get_exh_cnt-Carries = rw c.opened c.exh_count

  pub get_opt_cnt-Carries : get_opt_cnt m ≡ ok (length os)
  unfolding get_opt_cnt
  get_opt_cnt-Carries = rw c.opened c.opt_count

method_code_fits : (method : PayloadMethod) → u8 (method_code method) ≡ method_code method
unfolding method_code
method_code_fits none_method = refl
method_code_fits _ = refl

module _ (there here : Bytes) (es : List ExhPart) (os : List OptPart) (method : PayloadMethod)
    (number : ℕ) (enough : 38 ≤ length here) (fits : Fits es os) where
  carried : Carries (delivered there here es os method number) es os
  carried = delivered-Carries there here es os method number enough fits

  -- For any parts whose counts fit a byte, whose extension texts fit 16 bits and whose total fits
  -- 32 bits, and whatever the memory behind the initial literal held, a packed message is read
  -- back whole: the loops over the extension headers return the blocks, texts and headers of the
  -- extension parts, and the loop over the options the blocks of the option parts, in order.
  pub unpack-pack :
      (get_exhs (delivered there here es os method number) ≡ ok (map exh_block es))
      × (get_exh_payloads (delivered there here es os method number)
          ≡ ok (map (λ (e : ExhPart). e.text) es))
      × (get_exh_heads (delivered there here es os method number) ≡ ok (map part_head es))
      × (get_options (delivered there here es os method number) ≡ ok (map opt_block os))
  unpack-pack = (
    get_exhs-Carries carried,
    get_exh_payloads-Carries carried,
    get_exh_heads-Carries carried,
    get_options-Carries carried,
  )

  -- Under the same conditions the receiver's header accessors return the numbers of entries, the
  -- sizes of the two areas, the size of the whole text, the sequence number mod 2 ^ 32 and the
  -- name of the method.
  pub header-pack :
      (get_exh_cnt (delivered there here es os method number) ≡ ok (length es))
      × (get_opt_cnt (delivered there here es os method number) ≡ ok (length os))
      × (get_exh_size (delivered there here es os method number) ≡ ok (length (exh_area es)))
      × (get_opt_size (delivered there here es os method number) ≡ ok (length (opt_area os)))
      × (size (delivered there here es os method number)
          ≡ ok (length (pack here es os method number).payload))
      × (sequence (delivered there here es os method number) ≡ ok (u32 number))
      × (get_payload_method (delivered there here es os method number)
          ≡ ok (method_name (method_code method)))
  unfolding get_exh_size get_opt_size size sequence get_payload_method
  header-pack =
      let opened = delivered_opened there here es os method number enough (Fits-Sizes fits) in
      let fields = delivered_fields there here es os method number enough (Fits-Sizes fits) in
      let whole = payload_length there here es os method number enough (Fits-Sizes fits) in
      let total = fits.total_fits in
      (
        get_exh_cnt-Carries carried,
        get_opt_cnt-Carries carried,
        rw carried.opened carried.exh_end,
        rw carried.opened carried.opt_end,
        rw opened (fields.reads_payload_len ∙ ap ok (omega arith)),
        rw opened fields.reads_seqence,
        rw (opened, fields.reads_method) (ap (λ n. ok (method_name n)) (method_code_fits method)),
      )
