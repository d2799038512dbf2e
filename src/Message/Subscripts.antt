-- ===== src/Message/Subscripts.antt =====
-- The accessors with a subscript: `get_exh`, `get_exh_payload`, `get_exh_8bit` and `get_option`.
use moveon.Base.{
  ℕ, zero, suc, ◌+◌, ◌≤◌, ◌<◌, ◌≡◌, refl, sym, ap, ◌∙◌, subst, List, [], ◌∷◌, ◌++◌, map, none, some,
  get_elem?, Bytes, length, All, length-append, length-map, arith, Outcome, ok, Holds, Holds-left,
  false, if◌then◌else◌, leb, le→leb,
}
use moveon.Base.Int.{ℤ, pos, negsuc}
use moveon.Message.Layout.{PayloadMethod, sizeof_head}
use moveon.Message.Build.{Message}
use moveon.Message.Read.{bad_id, rounds, Lookup, refused, found}
use moveon.Message.ReadExh.{
  read_exh, read_exh_payload, read_exh_head, get_exh, get_exh_payload, get_exh_head, exh_seek,
}
use moveon.Message.Parts.{ExhPart, OptPart, Fits, part_head, exh_block, exh_area}
use moveon.Message.ReadLaws.{
  Short, exh_seek_lem, exh_len_lem, exh_slice_lem, exh_text_lem, load_exh_lem,
}
use moveon.Message.Carries.{Carries, delivered, delivered-Carries}
use moveon.Message.RoundTrip.{get_exh_cnt-Carries}

-- The entry at a subscript of type int, and `refused` at any other.
abbrev pub at_subscript {ℓ} : {A : Type ℓ} → List A → ℤ → Lookup A
at_subscript xs (pos k) = elim (get_elem? xs k) [ none ↦ refused | some x ↦ found x ]
at_subscript xs (negsuc k) = refused

-- A subscript is past the end, or splits the list.
data Split {ℓ} {A : Type ℓ} (xs : List A) (k : ℕ) : Type ℓ where
  past : length xs ≤ k → Split xs k
  within :
      (pre : List A) (x : A) (post : List A) → xs ≡ pre ++ (x ∷ post) → length pre ≡ k → Split xs k

Split-at {ℓ} : {A : Type ℓ} (xs : List A) (k : ℕ) → Split xs k
Split-at [] k = past (omega arith)
Split-at (x ∷ xs) zero = within [] x xs refl refl
Split-at (x ∷ xs) (suc k) = elim (Split-at xs k) [
  | past h ↦ past (omega arith)
  | within pre y post e f ↦ within (x ∷ pre) y post (ap (◌∷◌ x) e) (ap suc f)
]

at_subscript-past {ℓ} :
    {A : Type ℓ} (xs : List A) (k : ℕ) → length xs ≤ k → at_subscript xs (pos k) ≡ refused
at_subscript-past [] k h = refl
at_subscript-past (x ∷ xs) zero h = absurd (omega arith)
at_subscript-past (x ∷ xs) (suc k) h = at_subscript-past xs k (omega arith)

at_subscript-middle {ℓ κ} :
    {A : Type ℓ} {B : Type κ} (f : A → B) (pre : List A) (x : A) (post : List A)
    → at_subscript (map f (pre ++ (x ∷ post))) (pos (length pre)) ≡ found (f x)
at_subscript-middle f [] x post = refl
at_subscript-middle f (y ∷ pre) x post = at_subscript-middle f pre x post

leb_suc : (a b : ℕ) → b < a → leb a b ≡ false
leb_suc a b h = ground arith

All-append_left {ℓ κ} :
    {A : Type ℓ} (P : A → Type κ) (xs ys : List A) → All P (xs ++ ys) → All P xs × All P ys
All-append_left P [] ys h = (tt, h)
All-append_left P (x ∷ xs) ys h =
    let (left, right) = All-append_left P xs ys h.1 in ((h.0, left), right)

length-middle {ℓ} :
    {A : Type ℓ} (pre : List A) (x : A) (post : List A) → length pre < length (pre ++ (x ∷ post))
length-middle pre x post = omega (arith, length-append pre (x ∷ post))

module _ {ℓ} {A : Type ℓ} (read : ℕ → Outcome (Lookup A)) (count : ℕ) where
  -- The guard that the accessors share.
  abbrev pub guarded : ℤ → Outcome (Lookup A)
  guarded id = if bad_id id count then ok refused else read (rounds id)

-- Behind the guard, a reader that finds each entry agrees with the list.
guarded_lem {ℓ κ} :
    {A : Type ℓ} {B : Type κ} (f : A → B) (xs : List A) (read : ℕ → Outcome (Lookup B))
    → ((pre : List A) (x : A) (post : List A)
        → xs ≡ pre ++ (x ∷ post)
        → read (length pre) ≡ ok (found (f x)))
    → (id : ℤ) → guarded read (length xs) id ≡ ok (at_subscript (map f xs) id)
unfolding bad_id
guarded_lem f xs read reads (negsuc k) = refl
guarded_lem f xs read reads (pos k) = elim (Split-at xs k) [
  | past h ↦
      rw (le→leb (length xs) k h)
        (ap ok (sym (at_subscript-past (map f xs) k (omega (arith, length-map f xs)))))
  | within pre x post e g ↦
      subst (λ n. guarded read (length xs) (pos n) ≡ ok (at_subscript (map f xs) (pos n))) g
        (rw
          (leb_suc (length xs) (length pre) (omega (arith, ap length e, length-middle pre x post)))
          (reads pre x post e
            ∙ ap ok (
                sym (
                  ap (λ ys. at_subscript (map f ys) (pos (length pre))) e
                  ∙ at_subscript-middle f pre x post))))
]

module _ {m : Message} {es : List ExhPart} {os : List OptPart} (c : Carries m es os) where
  -- The seek loop stops at the entry that it is sent to.
  seek_lem :
      (pre : List ExhPart) (e : ExhPart) (post : List ExhPart)
      → es ≡ pre ++ (e ∷ post)
      → (exh_seek c.mem (length pre) sizeof_head ≡ ok (40 + length (exh_area pre)))
        × Holds c.mem (40 + length (exh_area pre)) (exh_block e)
        × Short e
  seek_lem pre e post split =
      let held = subst (λ l. Holds c.mem 40 (exh_area l)) split c.exhs_held in
      let short = All-append_left Short pre (e ∷ post) (subst (All Short) split c.texts_short) in
      let same = ap (λ (l : List ExhPart). length (exh_area l)) split in
      let (stop, there) =
        exh_seek_lem pre (e ∷ post) c.mem 40 held short.0 (omega (arith, c.total_fits)) in
      (stop, Holds-left (exh_block e) (exh_area post) there, short.1.0)

  -- `get_exh(s, id)` copies header and text of entry `id`, and refuses any other subscript.
  pub get_exh-Carries : (id : ℤ) → get_exh m id ≡ ok (at_subscript (map exh_block es) id)
  unfolding get_exh
  get_exh-Carries id =
      rw (get_exh_cnt-Carries c, c.opened) (guarded_lem exh_block es (read_exh c.mem) reads id)
    where
      reads :
          (pre : List ExhPart) (e : ExhPart) (post : List ExhPart)
          → es ≡ pre ++ (e ∷ post)
          → read_exh c.mem (length pre) ≡ ok (found (exh_block e))
      reads pre e post split =
          let (stop, here, short) = seek_lem pre e post split in
          unfold read_exh in rw (stop, exh_len_lem e here short, exh_slice_lem e here)

  -- `get_exh_payload(s, id)` copies its text.
  pub get_exh_payload-Carries :
      (id : ℤ) → get_exh_payload m id ≡ ok (at_subscript (map (λ (e : ExhPart). e.text) es) id)
  unfolding get_exh_payload
  get_exh_payload-Carries id =
      rw (get_exh_cnt-Carries c, c.opened)
        (guarded_lem (λ (e : ExhPart). e.text) es (read_exh_payload c.mem) reads id)
    where
      reads :
          (pre : List ExhPart) (e : ExhPart) (post : List ExhPart)
          → es ≡ pre ++ (e ∷ post)
          → read_exh_payload c.mem (length pre) ≡ ok (found e.text)
      reads pre e post split =
          let (stop, here, short) = seek_lem pre e post split in
          unfold read_exh_payload in rw (stop, exh_len_lem e here short, exh_text_lem e here)

  -- `get_exh_8bit(exh, id)` copies its header.
  pub get_exh_head-Carries : (id : ℤ) → get_exh_head m id ≡ ok (at_subscript (map part_head es) id)
  unfolding get_exh_head
  get_exh_head-Carries id =
      rw (get_exh_cnt-Carries c, c.opened) (guarded_lem part_head es (read_exh_head c.mem) reads id)
    where
      reads :
          (pre : List ExhPart) (e : ExhPart) (post : List ExhPart)
          → es ≡ pre ++ (e ∷ post)
          → read_exh_head c.mem (length pre) ≡ ok (found (part_head e))
      reads pre e post split =
          let (stop, here, short) = seek_lem pre e post split in
          unfold read_exh_head in rw (stop, load_exh_lem e here short)

-- For a packed message that fits, the three accessors of extension headers with a subscript return
-- the block, text and header of that part, and refuse a negative subscript and one past the end.
pub subscript-pack :
    (there here : Bytes) (es : List ExhPart) (os : List OptPart) (method : PayloadMethod)
    (number : ℕ)
    → 38 ≤ length here
    → Fits es os
    → (id : ℤ)
    → let m = delivered there here es os method number in
      (get_exh m id ≡ ok (at_subscript (map exh_block es) id))
      × (get_exh_payload m id ≡ ok (at_subscript (map (λ (e : ExhPart). e.text) es) id))
      × (get_exh_head m id ≡ ok (at_subscript (map part_head es) id))
subscript-pack there here es os method number enough fits id =
    let c = delivered-Carries there here es os method number enough fits in
    (get_exh-Carries c id, get_exh_payload-Carries c id, get_exh_head-Carries c id)
