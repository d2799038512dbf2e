-- ===== src/Service/Mgr.antt =====
-- service_mgr.cpp and service_base.h.
use moveon.Base.{ℕ, Option, none, some, Bytes, Outcome, ok, ◌>>=◌, codes, text_eq}
use moveon.Base.Int.{ℤ, pos, negsuc}
use moveon.Base.Dict
use moveon.Base.Dict.{Dict}
use moveon.Message.Build.{Message}
use moveon.Router.Json.{Json}
use moveon.Router.Uri.{get_uri}
use moveon.Pool.Queue.{normal_task}
use moveon.Pool.World.{World, add_task}

-- A service object: where it is, and what its virtual `uri()` returns.
pub record Service : Type 0 where
  pub address : ℕ
  pub uri : Bytes

-- service_base(): the uri is "default" until `setUri`.
unfoldable pub new_service : ℕ → Service
new_service address = record { address = address; uri = codes "default" }

unfoldable pub set_uri : Bytes → Service → Service
set_uri uri s = record s { uri = uri }

-- `_services`
abbrev pub Services : Type 0
Services = Dict Bytes Service

-- `regist` and `unregist` return 0.
unfoldable pub regist : Service → Services → Services × ℤ
regist s services = (Dict.assign s.uri s services, pos 0)

unfoldable pub unregist : Bytes → Services → Services × ℤ
unregist uri services = elim (Dict.find uri services) [
  | none ↦ (Dict.erase uri services, pos 0)
  | some s ↦ (services, pos 0)
]

-- service_base::start and service_base::stop
unfoldable pub start : Service → Services → Services × ℤ
unfolding regist
start s services = regist s services

unfoldable pub stop : Service → Services → Services × ℤ
unfolding unregist
stop s services = unregist s.uri services

-- `nullptr` is `none`.
unfoldable pub get_service : Bytes → Services → Option Service
get_service uri services = Dict.find uri services

-- The bound call of `doService`; a session is known by its connection's address.
pub record Call : Type 0 where
  pub service : Service
  pub session : ℕ
  pub message : Message

-- What `commit` does with the service that it found, or with a null pointer.
unfoldable pub commit_to : ℕ → Message → World Call → Option Service → Outcome (ℤ × World Call)
commit_to session m w none = ok (negsuc 0, w)
commit_to session m w (some s) =
    ok (pos 0, add_task normal_task (record { service = s; session = session; message = m }) w)

unfoldable pub commit : Json → Services → ℕ → Message → World Call → Outcome (ℤ × World Call)
commit json services session m w = do
  uri ← get_uri json m
  commit_to session m w (get_service uri services)
