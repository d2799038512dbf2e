-- ===== src/Service/Laws.antt =====
-- Registration, and the way of a message from its bytes to the queue of the thread pool.
use moveon.Base.{
  ℕ, ◌≤◌, ◌≡◌, refl, sym, ap, ◌∙◌, List, [], ◌∷◌, ◌++◌, Option, none, some, Bytes, length, ok,
  text_eq, text_beq, text_beq_iff, if◌then◌else◌, Option-cases, Bool-cases, inl, inr,
}
use moveon.Base.Int.{ℤ, pos, negsuc}
use moveon.Base.Dict
use moveon.Base.Dict.{Dict}
use moveon.Message.Layout.{PayloadMethod}
use moveon.Message.Build.{Message}
use moveon.Message.Parts.{ExhPart, OptPart, Fits}
use moveon.Message.Carries.{delivered}
use moveon.Router.Json.{Json}
use moveon.Router.Laws.{route, get_uri-pack}
use moveon.Pool.World.{World, add_task}
use moveon.Service.Mgr.{
  Service, Services, unregist, start, stop, get_service, Call, commit, commit_to,
}

-- Registering a service makes it the one at its uri, and changes no other uri.
pub get_service-start :
    (s : Service) (services : Services) (uri : Bytes)
    → get_service uri (start s services).0
      ≡ (if text_beq s.uri uri then some s else get_service uri services)
unfolding start get_service
get_service-start s services uri = Dict.find-assign s.uri uri s services

erase_missing :
    (uri j : Bytes) (services : Services)
    → Dict.find uri services ≡ none
    → Dict.find j (Dict.erase uri services) ≡ Dict.find j services
erase_missing uri j services missing = elim (Bool-cases (text_beq uri j)) [
  | inl same ↦
      let e = (text_beq_iff uri j).0 same in
      Dict.find-erase uri j services
      ∙ rw same (sym (ap (λ k. Dict.find k services) (sym e) ∙ missing))
  | inr other ↦ Dict.find-erase uri j services ∙ rw other
]

-- Whatever uri is given, `unregist` removes no service: it erases only a uri that it did not find.
pub get_service-unregist :
    (uri j : Bytes) (services : Services)
    → get_service j (unregist uri services).0 ≡ get_service j services
unfolding unregist get_service
get_service-unregist uri j services = elim (Option-cases (Dict.find uri services)) [
  | inl missing ↦ rw (missing, unregist) (erase_missing uri j services missing)
  | inr (s, there) ↦ rw (there, unregist)
]

-- Whatever was registered before, a service that is started and then stopped is still the one that
-- is found at its uri.
pub stopped_service-found :
    (s : Service) (services : Services) → get_service s.uri (stop s (start s services).0).0 ≡ some s
unfolding stop
stopped_service-found s services =
    get_service-unregist s.uri s.uri (start s services).0
    ∙ get_service-start s services s.uri
    ∙ rw ((text_beq_iff s.uri s.uri).1 refl)

-- The world after a call of service `s` joined the normal queue.
abbrev pub queued : Call → World Call → World Call
queued c w = record w { pool = record (w.pool) { normal_queue = w.pool.normal_queue ++ (c ∷ []) } }

-- -1 and no change without a service, else 0 and one more call of it.
abbrev pub answer : ℕ → Message → World Call → Option Service → ℤ × World Call
answer session m w none = (negsuc 0, w)
answer session m w (some s) =
    (pos 0, queued (record { service = s; session = session; message = m }) w)

commit_to-answer :
    (session : ℕ) (m : Message) (w : World Call) (s : Option Service)
    → commit_to session m w s ≡ ok (answer session m w s)
unfolding commit_to add_task
commit_to-answer session m w none = refl
commit_to-answer session m w (some s) = refl

module _ (json : Json) (services : Services) (there here : Bytes) (es : List ExhPart) (o : OptPart)
    (os : List OptPart) (method : PayloadMethod) (number : ℕ) (enough : 38 ≤ length here)
    (fits : Fits es (o ∷ os)) where
  -- From bytes to the queue: for a packed message that fits and has an option, and that the routing
  -- rule gives a uri, `commit` answers -1 and queues nothing when no service has that uri, and
  -- otherwise answers 0 and appends one call of that service, with the message and the session, to
  -- the normal queue, and changes nothing else of the pool.
  pub commit-pack :
      (uri : Bytes) (session : ℕ) (w : World Call)
      → route json es (o ∷ os) ≡ ok uri
      → let m = delivered there here es (o ∷ os) method number in
        commit json services session m w ≡ ok (answer session m w (get_service uri services))
  unfolding commit
  commit-pack uri session w routed =
      rw (get_uri-pack json there here es method number enough o os fits, routed)
        (commit_to-answer session _ w (get_service uri services))
