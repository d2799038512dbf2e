-- ===== src/Server/Laws.antt =====
-- Which connections the server holds, and what its sessions say.
use moveon.Base.{
  ℕ, ◌+◌, ◌≡◌, refl, ap, ◌∙◌, List, [], ◌∷◌, Option, none, some, Bool, true, false, Bytes, Outcome,
  ok, ◌>>=◌, nat_eq, if◌then◌else◌, ◌==◌, arith, u32,
}
use moveon.Base.Dict
use moveon.Base.Dict.{Dict}
use moveon.Server.State.{Server, Connection, is_some, is_conn_valid, on_open, on_close}
use moveon.Server.Session.{new_session, get_id}

-- What the endpoint tells the server of its connections.
pub data Notice : Type 0 where
  opened closed : Connection → Notice

abbrev pub handle : Notice → Server → Outcome Server
handle (opened con) s = on_open (some con) s
handle (closed con) s = on_close (some con) s

unfoldable pub handle_all : List Notice → Server → Outcome Server
handle_all [] s = ok s
handle_all (n ∷ ns) s = do s' ← handle n s; handle_all ns s'

-- Whether a connection is open after some notices, when it was `now` before: the last one counts.
abbrev pub open_after : ℕ → List Notice → Bool → Bool
open_after a [] now = now
open_after a (opened con ∷ ns) now = open_after a ns (if con.address == a then true else now)
open_after a (closed con ∷ ns) now = open_after a ns (if con.address == a then false else now)

-- The server after the notices, with its map as they left it.
abbrev pub Handled : ℕ → List Notice → Server → Type 0
Handled a ns s =
    (s' : Server) × (handle_all ns s ≡ ok s')
    × (is_conn_valid a s' ≡ open_after a ns (is_conn_valid a s))

kept_or_new :
    (same : Bool) (kept : Option Bytes) (r : Bytes)
    → is_some (elim kept [ some w ↦ some w | none ↦ if same then some r else none ])
      ≡ (if same then true else is_some kept)
kept_or_new true none r = refl
kept_or_new false none r = refl
kept_or_new true (some w) r = refl
kept_or_new false (some w) r = refl

open_valid :
    (a : ℕ) (con : Connection) (m : Dict ℕ Bytes)
    → is_some (Dict.find a (Dict.insert con.address con.remote m))
      ≡ (if con.address == a then true else is_some (Dict.find a m))
open_valid a con m =
    rw (Dict.find-insert con.address a con.remote m)
      (kept_or_new (con.address == a) (Dict.find a m) con.remote)

close_valid :
    (a : ℕ) (con : Connection) (m : Dict ℕ Bytes)
    → is_some (Dict.find a (Dict.erase con.address m))
      ≡ (if con.address == a then false else is_some (Dict.find a m))
close_valid a con m = rw (Dict.find-erase con.address a m) (ground arith)

-- However many connections opened and closed, in whatever order: the handlers finish, and
-- afterwards an address is valid exactly when the last notice of it was that it opened, or, where
-- there was none, when it was valid before.
pub handle_all-is_conn_valid : (a : ℕ) (ns : List Notice) (s : Server) → Handled a ns s
unfolding handle_all on_open on_close is_conn_valid
handle_all-is_conn_valid a [] s = (s, refl, refl)
handle_all-is_conn_valid a (opened con ∷ ns) s =
    let s1 = record s { connecter = Dict.insert con.address con.remote s.connecter } in
    let rest = handle_all-is_conn_valid a ns s1 in
    (rest.0, rest.1, rest.2 ∙ ap (open_after a ns) (open_valid a con s.connecter))
handle_all-is_conn_valid a (closed con ∷ ns) s =
    let s1 = record s { connecter = Dict.erase con.address s.connecter } in
    let rest = handle_all-is_conn_valid a ns s1 in
    (rest.0, rest.1, rest.2 ∙ ap (open_after a ns) (close_valid a con s.connecter))

-- What two sessions report as their ids after both were made, one after the other.
abbrev pub two_ids : Connection → Connection → ℕ → ℕ → Server → Outcome (ℕ × ℕ)
two_ids h k t u s = do
  (first, s1) ← new_session (some h) t s
  (second, s2) ← new_session (some k) u s1
  ok (get_id first s2, get_id second s2)

-- Two sessions made one after the other, whatever their connections and threads: both report the
-- same id, the count of the second.
pub get_id-shared :
    (h k : Connection) (t u : ℕ) (s : Server)
    → two_ids h k t u s ≡ ok (u32 (u32 (s.session_id + 1) + 1), u32 (u32 (s.session_id + 1) + 1))
unfolding new_session get_id
get_id-shared h k t u s = refl
