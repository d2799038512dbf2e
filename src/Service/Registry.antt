-- ===== src/Service/Registry.antt =====
-- The services over any sequence of calls, and the registry as a map that forgets how its entries
-- are stored.
use mathlib.Core.Quot
use mathlib.Core.Quot.{Quot, Quot-set}
use moveon.Base.{
  ◌≡◌, refl, sym, ap, ◌∙◌, List, [], ◌∷◌, Option, some, Bytes, text_eq, text_beq, if◌then◌else◌,
}
use moveon.Service.Mgr.{Service, Services, unregist, start, stop, get_service}
use moveon.Service.Laws.{get_service-start, get_service-unregist}

-- The calls that change the services.
pub data Op : Type 0 where
  starts stops : Service → Op
  unregists : Bytes → Op

unfoldable pub manage : List Op → Services → Services
manage [] services = services
manage (starts s ∷ ops) services = manage ops (start s services).0
manage (stops s ∷ ops) services = manage ops (stop s services).0
manage (unregists uri ∷ ops) services = manage ops (unregist uri services).0

-- The last service that was started with the uri, or the one before if there is none.
abbrev pub latest : Bytes → List Op → Option Service → Option Service
latest uri [] now = now
latest uri (starts s ∷ ops) now = latest uri ops (if text_beq s.uri uri then some s else now)
latest uri (stops s ∷ ops) now = latest uri ops now
latest uri (unregists other ∷ ops) now = latest uri ops now

-- Over any calls, in any order, the service at a uri is the last one that was started with it:
-- stopping and unregistering count for nothing.
pub manage-latest :
    (uri : Bytes) (ops : List Op) (services : Services)
    → get_service uri (manage ops services) ≡ latest uri ops (get_service uri services)
unfolding manage
manage-latest uri [] services = refl
manage-latest uri (starts s ∷ ops) services =
    manage-latest uri ops (start s services).0
    ∙ ap (latest uri ops) (get_service-start s services uri)
manage-latest uri (stops s ∷ ops) services =
    manage-latest uri ops (stop s services).0
    ∙ ap (latest uri ops) (unfold stop in get_service-unregist s.uri uri services)
manage-latest uri (unregists other ∷ ops) services =
    manage-latest uri ops (unregist other services).0
    ∙ ap (latest uri ops) (get_service-unregist other uri services)

-- The same service at each uri.
abbrev pub SameServices : Services → Services → Type 0
SameServices a b = (uri : Bytes) → get_service uri a ≡ get_service uri b

abbrev pub Registry : Type 0
Registry = Quot SameServices

start-SameServices :
    (s : Service) (a b : Services) → SameServices a b → SameServices (start s a).0 (start s b).0
start-SameServices s a b same uri =
    get_service-start s a uri
    ∙ ap (λ o. if text_beq s.uri uri then some s else o) (same uri)
    ∙ sym (get_service-start s b uri)

-- `start` on the registry.
pub started : Service → Registry → Registry
started s =
    Quot.lift Quot-set (λ services. Quot.mk (start s services).0)
      (λ a b same. Quot.sound (start-SameServices s a b same))
