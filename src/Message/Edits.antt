-- ===== src/Message/Edits.antt =====
-- The builder's calls in any order, on data that are bytes.
use moveon.Base.{
  ℕ, zero, suc, ◌/◌, ◌%◌, ◌^◌, ◌<◌, List, [], ◌∷◌, ◌++◌, Bytes, All, take, drop, length, arith, u16,
  u32,
}
use moveon.Message.Layout.{
  Head, sizeof_head, head_bytes, exh_bytes, oph_bytes, PayloadMethod, OptFormat,
}
use moveon.Message.Build.{
  Message, new_message, initial_payload, option_head, append_option, exh_head, append_exh,
  submitted_head, submit,
}

-- The calls, with the padding of the object in `append_exh`.
pub data Edit : Type 0 where
  options : ℕ → OptFormat → Bytes → Edit
  exhs : ℕ → ℕ → ℕ → Bytes → Edit
  submits : PayloadMethod → ℕ → Edit

unfoldable pub edit : Edit → Message → Message
edit (options t fmt o) m = append_option t fmt o m
edit (exhs pad_0 pad_1 t h) m = append_exh pad_0 pad_1 t h m
edit (submits method sequence) m = submit method sequence m

unfoldable pub edits : List Edit → Message → Message
edits [] m = m
edits (e ∷ es) m = edits es (edit e m)

abbrev pub IsByte : ℕ → Type 0
IsByte n = n < 256

abbrev pub IsBytes : Bytes → Type 0
IsBytes xs = All IsByte xs

-- The data that a call is given are bytes.
abbrev pub IsEdit : Edit → Type 0
IsEdit (options t fmt o) = IsBytes o
IsEdit (exhs pad_0 pad_1 t h) = IsByte pad_0 × IsByte pad_1 × IsBytes h
IsEdit (submits method sequence) = Unit

pub All-append {ℓ κ} :
    {A : Type ℓ} (P : A → Type κ) (xs ys : List A) → All P xs → All P ys → All P (xs ++ ys)
All-append P [] ys h k = k
All-append P (x ∷ xs) ys (a, h) k = (a, All-append P xs ys h k)

pub All-take {ℓ κ} :
    {A : Type ℓ} (P : A → Type κ) (n : ℕ) (xs : List A) → All P xs → All P (take n xs)
All-take P zero xs h = tt
All-take P (suc n) [] h = tt
All-take P (suc n) (x ∷ xs) (a, h) = (a, All-take P n xs h)

pub All-drop {ℓ κ} :
    {A : Type ℓ} (P : A → Type κ) (n : ℕ) (xs : List A) → All P xs → All P (drop n xs)
All-drop P zero xs h = h
All-drop P (suc n) [] h = tt
All-drop P (suc n) (x ∷ xs) (a, h) = All-drop P n xs h

-- The bytes of a word, in front of others.
two : (n : ℕ) {R : Type 0} → R → IsByte (n % 256) × (IsByte (n / 256 % 256) × R)
two n r = (omega arith, (omega arith, r))

four :
    (n : ℕ) {R : Type 0}
    → R
    → IsByte (n % 256)
      × (IsByte (n / 256 % 256) × (IsByte (n / 65536 % 256) × (IsByte (n / 16777216 % 256) × R)))
four n r = (omega arith, (omega arith, (omega arith, (omega arith, r))))

four-IsBytes : {a b c d : ℕ} → a < 256 → b < 256 → c < 256 → d < 256 → IsBytes (a ∷ b ∷ c ∷ d ∷ [])
four-IsBytes a b c d = (a, (b, (c, (d, tt))))

quad :
    {a b c d : ℕ} {R : Type 0}
    → IsBytes (a ∷ b ∷ c ∷ d ∷ [])
    → R
    → IsByte a × (IsByte b × (IsByte c × (IsByte d × R)))
quad (a, (b, (c, (d, u)))) r = (a, (b, (c, (d, r))))

-- The fields of one byte.
pub record IsHead (h : Head) : Type 0 where
  pub magic : IsBytes (h.magic_0 ∷ h.magic_1 ∷ h.magic_2 ∷ h.magic_3 ∷ [])
  pub counts : IsBytes (h.payload_method ∷ h.exhcnt ∷ h.optcnt ∷ h.hdrsv1 ∷ [])
  pub rsv : IsBytes (h.hdrsv_0 ∷ h.hdrsv_1 ∷ h.hdrsv_2 ∷ h.hdrsv_3 ∷ [])

pub head_bytes-IsBytes : (h : Head) → IsHead h → IsBytes (head_bytes h)
unfolding head_bytes
head_bytes-IsBytes h v = quad v.magic (
    four h.version (
      four h.payload_len (
        quad v.counts (
          four h.exhlen
            (four h.optlen (four h.exhcrc32 (four h.optcrc32 (four h.seqence v.rsv))))))))

option_head-IsBytes :
    (t : ℕ) (fmt : OptFormat) (o : Bytes) → IsBytes (oph_bytes (option_head t fmt o))
unfolding oph_bytes option_head
option_head-IsBytes t fmt o =
    quad (four-IsBytes (omega arith) (omega arith) (omega arith) (omega arith))
      (four (u32 (length o)) tt)

exh_head-IsBytes :
    (pad_0 pad_1 t : ℕ) (h : Bytes)
    → IsByte pad_0
    → IsByte pad_1
    → IsBytes (exh_bytes (exh_head pad_0 pad_1 t h))
unfolding exh_bytes exh_head
exh_head-IsBytes pad_0 pad_1 t h p q = (
  omega arith,
  (
    p,
    two (u16 (length h)) (
        quad (four-IsBytes (omega arith) (omega arith) (omega arith) (omega arith))
          (omega arith, (q, tt))),
  ),
)

-- The message of some calls: a header that fits its bytes, its sums 32 bits, its text bytes.
pub record IsTyped (m : Message) : Type 0 where
  pub head : IsHead m.header
  pub exhlen_fits : m.header.exhlen < 2 ^ 32
  pub optlen_fits : m.header.optlen < 2 ^ 32
  pub payload_len_fits : m.header.payload_len < 2 ^ 32
  pub seqence_fits : m.header.seqence < 2 ^ 32
  pub text : IsBytes m.payload

pub new_message-IsTyped : (beyond : Bytes) → IsBytes beyond → IsTyped (new_message beyond)
unfolding new_message initial_payload
new_message-IsTyped beyond h = record {
  head = record {
    magic = four-IsBytes (omega arith) (omega arith) (omega arith) (omega arith);
    counts = four-IsBytes (omega arith) (omega arith) (omega arith) (omega arith);
    rsv = four-IsBytes (omega arith) (omega arith) (omega arith) (omega arith);
  };
  exhlen_fits = omega arith;
  optlen_fits = omega arith;
  payload_len_fits = omega arith;
  seqence_fits = omega arith;
  text = All-take IsByte sizeof_head (0 ∷ 0 ∷ beyond) (omega arith, (omega arith, h));
}

edit-IsTyped : (e : Edit) (m : Message) → IsEdit e → IsTyped m → IsTyped (edit e m)
unfolding edit append_option append_exh submit submitted_head
edit-IsTyped (options t fmt o) m h v = record {
  head = record {
    magic = v.head.magic;
    counts = four-IsBytes v.head.counts.0 v.head.counts.1.0 (omega arith) v.head.counts.1.1.1.0;
    rsv = v.head.rsv;
  };
  exhlen_fits = v.exhlen_fits;
  optlen_fits = omega arith;
  payload_len_fits = v.payload_len_fits;
  seqence_fits = v.seqence_fits;
  text = All-append IsByte _ _ (All-append IsByte _ _ v.text (option_head-IsBytes t fmt o)) h;
}
edit-IsTyped (exhs pad_0 pad_1 t x) m (p, q, h) v = record {
  head = record {
    magic = v.head.magic;
    counts = four-IsBytes v.head.counts.0 (omega arith) v.head.counts.1.1.0 v.head.counts.1.1.1.0;
    rsv = v.head.rsv;
  };
  exhlen_fits = omega arith;
  optlen_fits = v.optlen_fits;
  payload_len_fits = v.payload_len_fits;
  seqence_fits = v.seqence_fits;
  text =
      All-append IsByte _ _ (All-append IsByte _ _ v.text (exh_head-IsBytes pad_0 pad_1 t x p q)) h;
}
edit-IsTyped (submits method sequence) m u v =
    let head : IsHead (submitted_head method sequence m.header) = record {
      magic = v.head.magic;
      counts =
          four-IsBytes (omega arith) v.head.counts.1.0 v.head.counts.1.1.0 v.head.counts.1.1.1.0;
      rsv = v.head.rsv;
    } in
    record {
      head = head;
      exhlen_fits = v.exhlen_fits;
      optlen_fits = v.optlen_fits;
      payload_len_fits = omega arith;
      seqence_fits = omega arith;
      text =
          All-append IsByte _ _ (head_bytes-IsBytes _ head)
            (All-drop IsByte sizeof_head m.payload v.text);
    }

pub edits-IsTyped :
    (es : List Edit) (m : Message) → All IsEdit es → IsTyped m → IsTyped (edits es m)
unfolding edits
edits-IsTyped [] m h v = v
edits-IsTyped (e ∷ es) m (a, h) v = edits-IsTyped es (edit e m) h (edit-IsTyped e m a v)
