-- ===== src/Client/Lines.antt =====
-- What the command loop makes of the lines that it reads.
use moveon.Base.{
  ℕ, zero, suc, ◌≤◌, ◌≡◌, refl, sym, ap, subst, ◌∙◌, ◌⊎◌, ◌↔◌, inl, inr, List, [], ◌∷◌, ◌++◌,
  Option, Bool, true, false, Bytes, codes, String, text_beq, text_beq_iff, take, drop, length, ltb,
  arith, Bool-cases, ok, thrown, length-append,
}
use moveon.Client.Endpoint.{Endpoint, Event, connects, sends, run}
use moveon.Client.Command.{
  Numbers, Command, quit, help, unrecognized, connect_to, show, close_with, send_text, starts,
  read_command, main_loop,
}

take_all : (n : ℕ) (xs : Bytes) → length xs ≤ n → take n xs ≡ xs
take_all zero [] short = refl
take_all (suc n) [] short = refl
take_all zero (x ∷ xs) short = absurd (omega arith)
take_all (suc n) (x ∷ xs) short = ap (λ ys. x ∷ ys) (take_all n xs (omega arith))

-- A line that starts with a word and is not longer is the word.
starts-short :
    (input : Bytes) (word : String)
    → length input ≤ length (codes word)
    → starts input word ≡ true
    → input ≡ codes word
starts-short input word short same =
    sym (take_all (length (codes word)) input short)
    ∙ (text_beq_iff (take (length (codes word)) input) (codes word)).0 same

-- The lines that are too short for the text that `substr` takes off.
abbrev pub IsBare : Bytes → Type 0
IsBare input = (input ≡ codes "connect") ⊎ (input ≡ codes "show")

-- Every other line is read as a command.
read_command-cases :
    (numbers : Numbers) (input : Bytes)
    → IsBare input ⊎ ((c : Command) × (read_command numbers input ≡ ok c))
unfolding read_command
read_command-cases numbers input = elim (Bool-cases (text_beq input (codes "quit"))) [
  | inl a ↦ inr (quit, rw a)
  | inr a ↦ elim (Bool-cases (text_beq input (codes "help"))) [
    | inl b ↦ inr (help, rw (a, b))
    | inr b ↦ elim (Bool-cases (starts input "connect")) [
      | inl c ↦ elim (Bool-cases (ltb (length input) 8)) [
        | inl short ↦ inl (inl (starts-short input "connect" (ground arith) c))
        | inr long ↦ inr (connect_to (drop 8 input), rw (a, b, c, long))
      ]
      | inr c ↦ elim (Bool-cases (starts input "show")) [
        | inl d ↦ elim (Bool-cases (ltb (length input) 5)) [
          | inl short ↦ inl (inr (starts-short input "show" (ground arith) d))
          | inr long ↦ inr (show (numbers.atoi (drop 5 input)), rw (a, b, c, d, long))
        ]
        | inr d ↦ elim (Bool-cases (starts input "close")) [
          | inl f ↦ inr (
            close_with (numbers.close_arguments input).0 (numbers.close_arguments input).1,
            rw (a, b, c, d, f),
          )
          | inr f ↦ elim (Bool-cases (starts input "send")) [
            | inl g ↦ inr (
              send_text (numbers.send_arguments input).0 (numbers.send_arguments input).1,
              rw (a, b, c, d, f, g),
            )
            | inr g ↦ inr (unrecognized, rw (a, b, c, d, f, g))
          ]
        ]
      ]
    ]
  ]
]

read_command-thrown_IsBare :
    (numbers : Numbers) (input : Bytes) → read_command numbers input ≡ thrown → IsBare input
read_command-thrown_IsBare numbers input h = elim (read_command-cases numbers input) [
  | inl bare ↦ bare
  | inr (c, read) ↦ cc (h, read)
]

read_command-bare :
    (numbers : Numbers) (input : Bytes) → IsBare input → read_command numbers input ≡ thrown
unfolding read_command
read_command-bare numbers input (inl e) = subst (λ i. read_command numbers i ≡ thrown) (sym e) refl
read_command-bare numbers input (inr e) = subst (λ i. read_command numbers i ≡ thrown) (sym e) refl

behind : (word rest : Bytes) → ltb (length (word ++ rest)) (length word) ≡ false
behind word rest = ground (arith, length-append word rest)

-- The loop's parser throws on the lines "connect" and "show" and on no other, and of a line that
-- says one of these words, a space and a text it makes the command with this text.
pub read_command-lines :
    (numbers : Numbers) (input text : Bytes)
    → ((read_command numbers input ≡ thrown) ↔ IsBare input)
      × (read_command numbers (codes "connect " ++ text) ≡ ok (connect_to text))
      × (read_command numbers (codes "show " ++ text) ≡ ok (show (numbers.atoi text)))
unfolding read_command
read_command-lines numbers input text = (
  (read_command-thrown_IsBare numbers input, read_command-bare numbers input),
  rw (behind (codes "connect ") text),
  rw (behind (codes "show ") text),
)

-- What a command does to the list, as events.
abbrev pub events_of : Command → Option ℕ → Bool → List Event
events_of (connect_to uri) hdl sent = connects hdl uri ∷ []
events_of (send_text id message) hdl sent = sends id message sent ∷ []
events_of _ hdl sent = []

-- Some line is too short.
abbrev pub HasBare : List (Bytes × Option ℕ × Bool) → Type 0
HasBare [] = ⊥
HasBare ((input, hdl, sent) ∷ lines) = IsBare input ⊎ HasBare lines

-- The loop is a run of the endpoint, or it throws.
abbrev pub Looped : Numbers → List (Bytes × Option ℕ × Bool) → Endpoint → Type 0
Looped numbers lines e =
    ((e' : Endpoint) × (ended : Bool) × (es : List Event) × (main_loop numbers lines e
        ≡ ok (e', ended))
      × (e' ≡ run es e))
    ⊎ (HasBare lines × (main_loop numbers lines e ≡ thrown))
