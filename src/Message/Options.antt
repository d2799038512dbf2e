-- ===== src/Message/Options.antt =====
-- `get_option(s, id)`: right for the first option; for a later one the loop steps an `AAWS_HEAD *`
-- by a number of bytes.
use moveon.Base.{
  true, map, ℕ, zero, suc, ◌+◌, ◌*◌, ◌^◌, ◌≤◌, ◌<◌, ◌≡◌, refl, ◌⊎◌, inl, inr, List, [], ◌∷◌, Bytes,
  length, length-append, u32, arith, ok, undefined, slice-past, read_u32, Holds, Holds-left, false,
  leb,
}
use moveon.Base.Int.{ℤ, pos, negsuc}
use moveon.Message.Layout.{sizeof_head, sizeof_oph, oph_len_at, PayloadMethod}
use moveon.Message.Build.{Message}
use moveon.Message.Read.{get_option, option_at, option_seek, bad_id, refused, found}
use moveon.Message.Parts.{ExhPart, OptPart, Fits, Fits-Sizes, opt_block, exh_area, opt_area, pack}
use moveon.Message.ReadLaws.{opt_len_lem, opt_slice_lem, length-opt_block}
use moveon.Message.Carries.{Carries, delivered, delivered-Carries, payload_length}
use moveon.Message.RoundTrip.{get_opt_cnt-Carries}
use moveon.Message.Subscripts.{at_subscript}

leb_gt : (a b : ℕ) → b < a → leb a b ≡ false
leb_gt a b h = ground arith

read_u32-past :
    (block : Bytes) (offset : ℕ) → length block < offset + 4 → read_u32 block offset ≡ undefined
unfolding read_u32
read_u32-past block offset h = rw (slice-past block offset 4 h)

module _ {m : Message} {es : List ExhPart} {o : OptPart} {os : List OptPart}
    (c : Carries m es (o ∷ os)) where
  abbrev start : ℕ
  start = 40 + length (exh_area es)

  first : Holds c.mem start (opt_block o)
  first = Holds-left (opt_block o) (opt_area os) c.opts_held

  areas : start + (length (opt_block o) + length (opt_area os)) < 2 ^ 32
  areas = omega (arith, c.total_fits, length-append (opt_block o) (opt_area os))

  start_lem : u32 (sizeof_head + length (exh_area es)) ≡ start
  start_lem = omega (arith, areas)

  first_len : oph_len_at c.mem start ≡ ok (length o.text)
  first_len = opt_len_lem o first (omega (arith, areas, length-opt_block o))

  option_at-zero : option_at m 0 ≡ ok (opt_block o)
  unfolding option_at option_seek
  option_at-zero = rw (c.opened, c.exh_end, start_lem, first_len) (opt_slice_lem o first _ refl)

  pub get_option-Carries : get_option m (pos 0) ≡ ok (found (opt_block o))
  unfolding get_option bad_id
  get_option-Carries =
      rw (get_opt_cnt-Carries c, leb_gt (length (o ∷ os)) 0 (omega arith), option_at-zero)

  -- Past the first option the length is read 40 times too far into the memory.
  second_read :
      length c.mem < 40 * (start + length (opt_block o)) + 8
      → oph_len_at c.mem (40 * (start + length (opt_block o))) ≡ undefined
  second_read short = read_u32-past c.mem _ (omega arith)

  next_lem : u32 (start + (length o.text + sizeof_oph)) ≡ start + length (opt_block o)
  next_lem = omega (arith, areas, length-opt_block o)

  option_at-suc :
      (k : ℕ)
      → length c.mem < 40 * (start + length (opt_block o)) + 8
      → option_at m (suc k) ≡ undefined
  unfolding option_at option_seek
  option_at-suc zero short =
      rw (c.opened, c.exh_end, start_lem, first_len, next_lem, second_read short)
  option_at-suc (suc k) short =
      rw (c.opened, c.exh_end, start_lem, first_len, next_lem, second_read short)

refused_lem {ℓ κ} :
    {A : Type ℓ} {B : Type κ} (f : A → B) (xs : List A) (id : ℤ)
    → at_subscript xs id ≡ refused
    → (bad_id id (length xs) ≡ true) × (at_subscript (map f xs) id ≡ refused)
unfolding bad_id
refused_lem f xs (negsuc k) e = (refl, refl)
refused_lem f [] (pos k) e = (ground arith, refl)
refused_lem f (x ∷ xs) (pos zero) e = cc
refused_lem f (x ∷ xs) (pos (suc k)) e =
    let (bad, refuses) = refused_lem f xs (pos k) e in (ground arith, refuses)

pub get_option-Carries_none :
    {m : Message} {es : List ExhPart} → Carries m es [] → get_option m (pos 0) ≡ ok refused
unfolding get_option bad_id
get_option-Carries_none c = rw (get_opt_cnt-Carries c)

module _ (there here : Bytes) (es : List ExhPart) (o : OptPart) (os : List OptPart)
    (method : PayloadMethod) (number : ℕ) (enough : 38 ≤ length here)
    (fits : Fits es (o ∷ os)) where
  carried : Carries (delivered there here es (o ∷ os) method number) es (o ∷ os)
  carried = delivered-Carries there here es (o ∷ os) method number enough fits

  -- For a packed message that fits and has an option, and a subscript that is 0 or names no option,
  -- `get_option` copies the first option at 0 and refuses every other.
  pub first_option-pack :
      (id : ℤ)
      → (id ≡ pos 0) ⊎ (at_subscript (o ∷ os) id ≡ refused)
      → get_option (delivered there here es (o ∷ os) method number) id
        ≡ ok (at_subscript (map opt_block (o ∷ os)) id)
  first_option-pack id (inl e) = rw e (get_option-Carries carried)
  first_option-pack id (inr e) =
      let (bad, refuses) = refused_lem opt_block (o ∷ os) id e in
      unfold get_option in rw (get_opt_cnt-Carries carried, bad, refuses)

  -- For a packed message that fits, every subscript above 0 that names an option makes `get_option`
  -- read outside the message, unless the message is some 40 times as long as its part up to the
  -- end of the first option.
  pub later_option-undefined :
      (k : ℕ)
      → suc k < length (o ∷ os)
      → length (pack here es (o ∷ os) method number).payload
        < 40 * (40 + length (exh_area es) + length (opt_block o)) + 7
      → get_option (delivered there here es (o ∷ os) method number) (pos (suc k)) ≡ undefined
  unfolding get_option bad_id
  later_option-undefined k named short = rw (
    get_opt_cnt-Carries carried,
    leb_gt (length (o ∷ os)) (suc k) named,
    option_at-suc carried k (
        omega (
          arith,
          carried.mem_length,
          payload_length there here es (o ∷ os) method number enough (Fits-Sizes fits),
        )),
  )
