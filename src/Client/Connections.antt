-- ===== src/Client/Connections.antt =====
-- The connections of the endpoint over a whole run.
use moveon.Base.{
  ℕ, ◌+◌, ◌≤◌, ◌≡◌, refl, ap, ◌∙◌, List, [], ◌∷◌, none, some, true, false, Bytes, nat_eq, ◌==◌,
  ==_iff, if◌then◌else◌, arith, length,
}
use moveon.Base.Int.{pos, negsuc}
use moveon.Base.Dict
use moveon.Base.Dict.{Dict}
use moveon.Client.Metadata.{
  Metadata, new_metadata, on_open, on_fail, record_sent_message, print, print_messages,
}
use moveon.Client.Endpoint.{
  Endpoint, new_endpoint, connect, send, get_metadata, Event, connects, sends, opens, fails, step,
  run,
}
use moveon.Client.Laws.{
  Fresh, Found, assign-Found, change-Found, change-Fresh, on_open-Kept, on_fail-Kept,
  record_sent-Kept,
}

below-differs : (n k : ℕ) → n + 1 ≤ k → (n == k) ≡ false
below-differs n k above = ground arith

connect-Fresh :
    (hdl : ℕ) (uri : Bytes) (e : Endpoint) → Fresh e → Fresh (connect (some hdl) uri e).0
unfolding connect
connect-Fresh hdl uri e fresh k above =
    Dict.find-assign e.next_id k (new_metadata e.next_id hdl uri) e.connection_list
    ∙ ap (λ b. if b then some (new_metadata e.next_id hdl uri) else Dict.find k e.connection_list)
        (below-differs e.next_id k above)
    ∙ fresh k (omega arith)

step-Fresh : (ev : Event) (e : Endpoint) → Fresh e → Fresh (step ev e)
unfolding step connect send
step-Fresh (connects none uri) e fresh = fresh
step-Fresh (connects (some hdl) uri) e fresh = connect-Fresh hdl uri e fresh
step-Fresh (sends (pos id) message true) e fresh =
    change-Fresh id (record_sent_message message) e fresh
step-Fresh (sends (negsuc id) message true) e fresh = fresh
step-Fresh (sends id message false) e fresh = fresh
step-Fresh (opens id answer) e fresh = change-Fresh id (on_open answer) e fresh
step-Fresh (fails id answer) e fresh = change-Fresh id (on_fail answer) e fresh

run-Fresh : (es : List Event) (e : Endpoint) → Fresh e → Fresh (run es e)
unfolding run
run-Fresh [] e fresh = fresh
run-Fresh (ev ∷ es) e fresh = run-Fresh es (step ev e) (step-Fresh ev e fresh)

step-Found :
    (ev : Event) (e : Endpoint) (j : ℕ) (d : Metadata)
    → Fresh e
    → Dict.find j e.connection_list ≡ some d
    → Found j d (step ev e).connection_list
unfolding step connect send
step-Found (connects none uri) e j d fresh found =
    (d, found, record { same_id = refl; same_hdl = refl; same_uri = refl })
step-Found (connects (some hdl) uri) e j d fresh found =
    assign-Found e.next_id j (new_metadata e.next_id hdl uri) d e.connection_list found
      (λ same. cc (found, fresh j (omega (arith, (==_iff e.next_id j).0 same))))
step-Found (sends (pos id) message true) e j d fresh found =
    change-Found id j (record_sent_message message) d e (record_sent-Kept message) found
step-Found (sends (negsuc id) message true) e j d fresh found =
    (d, found, record { same_id = refl; same_hdl = refl; same_uri = refl })
step-Found (sends id message false) e j d fresh found =
    (d, found, record { same_id = refl; same_hdl = refl; same_uri = refl })
step-Found (opens id answer) e j d fresh found =
    change-Found id j (on_open answer) d e (on_open-Kept answer) found
step-Found (fails id answer) e j d fresh found =
    change-Found id j (on_fail answer) d e (on_fail-Kept answer) found

run-Found :
    (es : List Event) (e : Endpoint) (j : ℕ) (d : Metadata)
    → Fresh e
    → Dict.find j e.connection_list ≡ some d
    → Found j d (run es e).connection_list
unfolding run
run-Found [] e j d fresh found =
    (d, found, record { same_id = refl; same_hdl = refl; same_uri = refl })
run-Found (ev ∷ es) e j d fresh found =
    let (c, next, kept) = step-Found ev e j d fresh found in
    let (b, last, kept') = run-Found es (step ev e) j c (step-Fresh ev e fresh) next in
    (
      b,
      last,
      record {
        same_id = kept'.same_id ∙ kept.same_id;
        same_hdl = kept'.same_hdl ∙ kept.same_hdl;
        same_uri = kept'.same_uri ∙ kept.same_uri;
      },
    )

new_endpoint-Fresh : Fresh new_endpoint
unfolding new_endpoint Dict.find
new_endpoint-Fresh k above = refl

assigned : (k : ℕ) (d : Metadata) (m : Dict ℕ Metadata) → Dict.find k (Dict.assign k d m) ≡ some d
assigned k d m =
    Dict.find-assign k k d m ∙ ap (λ b. if b then some d else Dict.find k m) ((==_iff k k).1 refl)

-- Whatever happened before and whatever happens after, the id that `connect` returns was unknown
-- before, and leads ever after to a connection with that id, the handle and the uri.
pub connect-get_metadata :
    (before after : List Event) (hdl : ℕ) (uri : Bytes)
    → let e = run before new_endpoint in
      let (e', id) = connect (some hdl) uri e in
      (get_metadata id e ≡ none)
      × (d : Metadata) × (get_metadata id (run after e') ≡ some d)
      × (pos d.id ≡ id)
      × (d.hdl ≡ hdl)
      × (d.uri ≡ uri)
unfolding get_metadata connect new_metadata
connect-get_metadata before after hdl uri =
    let e = run before new_endpoint in
    let fresh = run-Fresh before new_endpoint new_endpoint-Fresh in
    let (d, found, kept) =
      run-Found after (connect (some hdl) uri e).0 e.next_id (new_metadata e.next_id hdl uri)
        (connect-Fresh hdl uri e fresh)
        (assigned e.next_id (new_metadata e.next_id hdl uri) e.connection_list) in
    (fresh e.next_id (omega arith), d, found, ap pos kept.same_id, kept.same_hdl, kept.same_uri)

-- Printing a connection shows its first message only: those behind it matter by their number.
pub print_lem :
    (decimal : ℕ → Bytes) (d : Metadata) (m : Bytes) (ms ns : List Bytes)
    → length ms ≡ length ns
    → print decimal (record d { messages = m ∷ ms })
      ≡ print decimal (record d { messages = m ∷ ns })
unfolding print print_messages
print_lem decimal d m ms ns same = rw same refl
