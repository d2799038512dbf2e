-- ===== src/Router/Json.antt =====
-- What the router uses of the jsoncpp library, which is not part of the repository.
use moveon.Base.{Bytes, Bool, Option, Outcome}

pub record Json : Type 1 where
  pub Value : Type 0
  -- `Json::Reader::parse`: `none` is its result `false`.
  pub parse : Bytes → Option Value
  -- `root.isMember(key)`, which throws where the value is no object.
  pub is_member : Value → Bytes → Outcome Bool
  -- `root[key].asString()`, which throws where the member is no text.
  pub string_at : Value → Bytes → Outcome Bytes
