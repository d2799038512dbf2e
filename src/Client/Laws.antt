-- ===== src/Client/Laws.antt =====
-- What the endpoint's list of connections keeps.
use moveon.Base.{
  ℕ, ◌≤◌, ◌≡◌, refl, sym, ap, subst, ◌∙◌, Option, none, some, true, Bytes, nat_eq, ◌==◌, ==_iff,
  if◌then◌else◌, Bool-cases, inl, inr, arith,
}
use moveon.Base.Dict
use moveon.Base.Dict.{Dict}
use moveon.Client.Metadata.{Metadata, on_open, on_fail, record_sent_message}
use moveon.Client.Endpoint.{Endpoint, change_found, change}

-- The fields of a connection that never change.
pub record Kept (d d' : Metadata) : Type 0 where
  pub same_id : d'.id ≡ d.id
  pub same_hdl : d'.hdl ≡ d.hdl
  pub same_uri : d'.uri ≡ d.uri

abbrev pub Keeps : (Metadata → Metadata) → Type 0
Keeps f = (d : Metadata) → Kept d (f d)

-- No id from the counter up is in the list.
abbrev pub Fresh : Endpoint → Type 0
Fresh e = (k : ℕ) → e.next_id ≤ k → Dict.find k e.connection_list ≡ none

abbrev pub Found : ℕ → Metadata → Dict ℕ Metadata → Type 0
Found j d m = (d' : Metadata) × (Dict.find j m ≡ some d') × Kept d d'

pub assign-Found :
    (k j : ℕ) (new d : Metadata) (m : Dict ℕ Metadata)
    → Dict.find j m ≡ some d
    → ((k == j) ≡ true → Kept d new)
    → Found j d (Dict.assign k new m)
assign-Found k j new d m found kept = elim (Bool-cases (k == j)) [
  | inl same ↦ (
    new,
    Dict.find-assign k j new m ∙ ap (λ b. if b then some new else Dict.find j m) same,
    kept same,
  )
  | inr other ↦ (
    d,
    Dict.find-assign k j new m ∙ ap (λ b. if b then some new else Dict.find j m) other ∙ found,
    record { same_id = refl; same_hdl = refl; same_uri = refl },
  )
]

some-injective : {a b : Metadata} → some a ≡ some b → a ≡ b
some-injective {a} h = ap (λ o. elim o [ none ↦ a | some c ↦ c ]) h

change_found-Found :
    (k j : ℕ) (f : Metadata → Metadata) (d : Metadata) (e : Endpoint) (o : Option Metadata)
    → Keeps f
    → Dict.find k e.connection_list ≡ o
    → Dict.find j e.connection_list ≡ some d
    → Found j d (change_found k f e o).connection_list
change_found-Found k j f d e none keeps there found =
    (d, found, record { same_id = refl; same_hdl = refl; same_uri = refl })
change_found-Found k j f d e (some c) keeps there found =
    assign-Found k j (f c) d e.connection_list found (λ same.
      subst (λ x. Kept x (f c))
        (some-injective
          (sym there ∙ ap (λ i. Dict.find i e.connection_list) ((==_iff k j).0 same) ∙ found))
        (keeps c))

change_found-Fresh :
    (id : ℕ) (f : Metadata → Metadata) (e : Endpoint) (o : Option Metadata)
    → Dict.find id e.connection_list ≡ o
    → Fresh e
    → Fresh (change_found id f e o)
change_found-Fresh id f e none there fresh k above = fresh k above
change_found-Fresh id f e (some c) there fresh k above = elim (Bool-cases (id == k)) [
  | inl same ↦
      ground
        (arith, there, fresh id (subst (λ n. e.next_id ≤ n) (sym ((==_iff id k).0 same)) above))
  | inr other ↦
      Dict.find-assign id k (f c) e.connection_list
      ∙ ap (λ b. if b then some (f c) else Dict.find k e.connection_list) other
      ∙ fresh k above
]

pub change-Found :
    (k j : ℕ) (f : Metadata → Metadata) (d : Metadata) (e : Endpoint)
    → Keeps f
    → Dict.find j e.connection_list ≡ some d
    → Found j d (change k f e).connection_list
change-Found k j f d e keeps found =
    change_found-Found k j f d e (Dict.find k e.connection_list) keeps refl found

pub change-Fresh :
    (id : ℕ) (f : Metadata → Metadata) (e : Endpoint) → Fresh e → Fresh (change id f e)
change-Fresh id f e fresh = change_found-Fresh id f e (Dict.find id e.connection_list) refl fresh

pub on_open-Kept : (answer : Option Bytes) → Keeps (on_open answer)
unfolding on_open
on_open-Kept none d = record { same_id = refl; same_hdl = refl; same_uri = refl }
on_open-Kept (some server) d = record { same_id = refl; same_hdl = refl; same_uri = refl }

pub on_fail-Kept : (answer : Option (Bytes × Bytes)) → Keeps (on_fail answer)
unfolding on_fail
on_fail-Kept none d = record { same_id = refl; same_hdl = refl; same_uri = refl }
on_fail-Kept (some (server, reason)) d = record { same_id = refl; same_hdl = refl; same_uri = refl }

pub record_sent-Kept : (message : Bytes) → Keeps (record_sent_message message)
unfolding record_sent_message
record_sent-Kept message d = record { same_id = refl; same_hdl = refl; same_uri = refl }
