-- ===== src/Examples/Samples.antt =====
-- The data of the examples.
use moveon.Base.{ℕ, List, [], ◌∷◌, some, true, Bytes, ok, codes, zero, suc, arith}
use moveon.Message.Layout.{fmt_text, fmt_json, req}
use moveon.Message.Build.{Message}
use moveon.Message.Edits.{IsBytes}
use moveon.Message.Parts.{ExhPart, OptPart}
use moveon.Message.Carries.{delivered}
use moveon.Router.Json.{Json}
use moveon.Service.Mgr.{Service}

abbrev filled : ℕ → Bytes
filled zero = []
filled (suc n) = 0 ∷ filled n

-- The memory behind the two-byte literal.
abbrev pub zeros : Bytes
zeros = filled 38

filled-IsBytes : (n : ℕ) → IsBytes (filled n)
filled-IsBytes zero = tt
filled-IsBytes (suc n) = (omega arith, filled-IsBytes n)

pub zeros-IsBytes : IsBytes zeros
zeros-IsBytes = filled-IsBytes 38

abbrev pub chat_exh : ExhPart
chat_exh = record { type = 1; pad_0 = 7; pad_1 = 9; text = codes "/chat" }

abbrev pub one_exh : List ExhPart
one_exh = chat_exh ∷ []

abbrev pub first_opt : OptPart
first_opt = record { type = 2; format = fmt_text; text = codes "hi" }

abbrev pub second_opt : OptPart
second_opt = record { type = 3; format = fmt_json; text = codes "/list" }

abbrev pub sample : Message
sample = delivered zeros zeros one_exh (first_opt ∷ second_opt ∷ []) req 5

-- A parser that takes every text for an object whose members are all that text.
abbrev pub plain_json : Json
plain_json = record {
  Value = Bytes;
  parse = λ text. some text;
  is_member = λ root key. ok true;
  string_at = λ root key. ok root;
}

abbrev pub chat : Service
chat = record { address = 100; uri = codes "/chat" }

abbrev pub list : Service
list = record { address = 200; uri = codes "/list" }
