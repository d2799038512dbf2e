-- ===== src/Server/Hostile.antt =====
-- `on_message` on bytes that no builder made: a peer sends whatever it likes.
use moveon.Base.{
  ◌<◌, ◌≡◌, refl, ◌⊎◌, inl, inr, [], ◌∷◌, ◌++◌, some, Bytes, length, length-append, arith, ok,
  undefined, slice-past, slice-cases,
}
use moveon.Base.Int.{pos}
use moveon.Message.Build.{Message, received_message}
use moveon.Message.Read.{get_head, get_opt_cnt, get_option, refused, bad_id}
use moveon.Message.ReadExh.{dump_head, dump_oph, dump_msg}
use moveon.Router.Json.{Json}
use moveon.Router.Uri.{get_uri}
use moveon.Pool.World.{World}
use moveon.Service.Mgr.{Services, Call, commit}
use moveon.Server.State.{Server, Connection, on_message}

received_block :
    (beyond msg : Bytes) → get_head (received_message beyond msg) ≡ ok (msg ++ (0 ∷ []))
unfolding get_head received_message
received_block beyond msg = refl

dump_msg-short :
    (beyond msg : Bytes) → length msg < 35 → dump_msg (received_message beyond msg) ≡ undefined
unfolding dump_msg dump_head
dump_msg-short beyond msg short =
    let size = length-append msg (0 ∷ []) in
    rw (received_block beyond msg, slice-past (msg ++ (0 ∷ [])) 0 36 (omega arith))

refused_option : (m : Message) → get_opt_cnt m ≡ ok 0 → get_option m (pos 0) ≡ ok refused
unfolding get_option bad_id
refused_option m no_options = rw no_options

dump_msg-no_options :
    (beyond msg : Bytes)
    → get_opt_cnt (received_message beyond msg) ≡ ok 0
    → dump_msg (received_message beyond msg) ≡ undefined
unfolding dump_msg dump_head dump_oph
dump_msg-no_options beyond msg h = elim (slice-cases (msg ++ (0 ∷ [])) 0 36) [
  | inl outside ↦ rw (received_block beyond msg, outside)
  | inr (head, inside) ↦ rw (
    received_block beyond msg,
    inside,
    refused_option (received_message beyond msg) h,
    slice-past (0 ∷ []) 0 8 (omega arith),
  )
]

-- A message of fewer than 35 bytes, and one whose header counts no option, take `on_message` out of
-- the defined behaviour, whatever the connection, the services and the state are.
pub on_message-undefined :
    (json : Json) (services : Services) (con : Connection) (beyond msg : Bytes) (s : Server)
    (w : World Call)
    → (length msg < 35) ⊎ (get_opt_cnt (received_message beyond msg) ≡ ok 0)
    → on_message json services (some con) beyond msg s w ≡ undefined
unfolding on_message commit get_uri
on_message-undefined json services con beyond msg s w (inl short) =
    rw (dump_msg-short beyond msg short)
on_message-undefined json services con beyond msg s w (inr no_options) =
    rw (dump_msg-no_options beyond msg no_options)
