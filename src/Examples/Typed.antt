-- ===== src/Examples/Typed.antt =====
-- Calls of the builder in an order that no reader expects.
use moveon.Base.{List, [], ◌∷◌, codes}
use moveon.Message.Layout.{req, ack, fmt_text}
use moveon.Message.Edits.{Edit, options, exhs, submits}

abbrev calls : List Edit
calls =
    options 2 fmt_text (codes "hi") ∷ submits req 5 ∷ exhs 7 9 1 (codes "/c") ∷ submits ack 6 ∷ []
