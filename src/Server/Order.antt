-- ===== src/Server/Order.antt =====
-- What a thread sends of what was posted to it.
use moveon.Base.{
  ℕ, ◌≡◌, refl, sym, ap, ◌∙◌, List, [], ◌∷◌, ◌++◌, append-nil, append_assoc, map, Option, none,
  some, Bool, true, false, nat_eq, ◌==◌, ==_iff, if◌then◌else◌, arith,
}
use moveon.Base.Dict
use moveon.Base.Dict.{Dict}
use moveon.Server.State.{Server, Post}
use moveon.Server.Session.{async_send, post_to}
use moveon.Server.Threads.{
  Sent, on_async_send, poll, poll_found, Turn, sends, polls, take_turn, take_turns,
}

-- The posts of some sessions' sends that go to the thread, in order.
abbrev pub posts_to : ℕ → List Turn → List Post
posts_to tid [] = []
posts_to tid (polls t ∷ turns) = posts_to tid turns
posts_to tid (sends session msg opcode ∷ turns) =
    let rest = posts_to tid turns in
    if session.tid == tid
    then record { connection = session.conn_addr; text = msg; opcode = opcode } ∷ rest
    else rest

-- The posts that the thread sent, in order.
abbrev pub sent_by : ℕ → List Sent → List Post
sent_by tid [] = []
sent_by tid (s ∷ sents) =
    let rest = sent_by tid sents in if s.thread == tid then s.post ∷ rest else rest

sent_by-append :
    (tid : ℕ) (xs ys : List Sent) → sent_by tid (xs ++ ys) ≡ sent_by tid xs ++ sent_by tid ys
sent_by-append tid [] ys = refl
sent_by-append tid (x ∷ xs) ys = ground (arith, sent_by-append tid xs ys)

sent_by_self : (tid : ℕ) (posts : List Post) → sent_by tid (map (on_async_send tid) posts) ≡ posts
unfolding on_async_send
sent_by_self tid [] = refl
sent_by_self tid (p ∷ posts) = rw ((==_iff tid tid).1 refl, sent_by_self tid posts)

sent_by_other :
    (tid t : ℕ) (posts : List Post)
    → (t == tid) ≡ false
    → sent_by tid (map (on_async_send t) posts) ≡ []
unfolding on_async_send
sent_by_other tid t [] other = refl
sent_by_other tid t (p ∷ posts) other = rw (other, sent_by_other tid t posts other)

some-injective {ℓ} : {A : Type ℓ} {a b : A} → some a ≡ some b → a ≡ b
some-injective {a} h = ap (λ o. elim o [ none ↦ a | some c ↦ c ]) h

-- One change of the queues: thread `tid` had `q`, it got `got` and sent `gone`.
Moved : ℕ → List Post → List Post → List Post → Server → Type 0
Moved tid q got gone s' =
    (q' : List Post) × (Dict.find tid s'.io_service ≡ some q') × (q ++ got ≡ gone ++ q')

-- The queue that `find` gives at `k`, where `k` is the thread or another key.
same_queue :
    (k tid : ℕ) (m : Dict ℕ (List Post)) (o : Option (List Post)) (q : List Post)
    → Dict.find k m ≡ o
    → Dict.find tid m ≡ some q
    → (k == tid) ≡ true
    → o ≡ some q
same_queue k tid m o q at found same =
    sym at ∙ ap (λ i. Dict.find i m) ((==_iff k tid).0 same) ∙ found

assigned :
    (k tid : ℕ) (new : List Post) (m : Dict ℕ (List Post)) (b : Bool)
    → (k == tid) ≡ b
    → Dict.find tid (Dict.assign k new m) ≡ (if b then some new else Dict.find tid m)
assigned k tid new m b e =
    Dict.find-assign k tid new m ∙ ap (λ c. if c then some new else Dict.find tid m) e

post_to-Moved :
    (k tid : ℕ) (post : Post) (s : Server) (o : Option (List Post)) (q : List Post) (b : Bool)
    → Dict.find k s.io_service ≡ o
    → Dict.find tid s.io_service ≡ some q
    → (k == tid) ≡ b
    → Moved tid q (if b then post ∷ [] else []) [] (post_to k post s o)
unfolding Moved
post_to-Moved k tid post s none q true at found same =
    cc (same_queue k tid s.io_service none q at found same)
post_to-Moved k tid post s none q false at found other = (q, found, append-nil q)
post_to-Moved k tid post s (some posts) q true at found same = (
  posts ++ (post ∷ []),
  assigned k tid _ s.io_service true same,
  ap (λ xs. xs ++ (post ∷ []))
      (sym (some-injective (same_queue k tid s.io_service (some posts) q at found same))),
)
post_to-Moved k tid post s (some posts) q false at found other =
    (q, assigned k tid _ s.io_service false other ∙ found, append-nil q)

poll_found-Moved :
    (k tid : ℕ) (s : Server) (o : Option (List Post)) (q : List Post) (b : Bool)
    → Dict.find k s.io_service ≡ o
    → Dict.find tid s.io_service ≡ some q
    → (k == tid) ≡ b
    → Moved tid q [] (sent_by tid (poll_found k s o).1) (poll_found k s o).0
unfolding Moved
poll_found-Moved k tid s none q b at found e = (q, found, append-nil q)
poll_found-Moved k tid s (some posts) q true at found same = (
  [],
  assigned k tid _ s.io_service true same,
  ap (λ xs. xs ++ [])
      (sym (some-injective (same_queue k tid s.io_service (some posts) q at found same))
        ∙ (sym (sent_by_self tid posts)
            ∙ ap (λ i. sent_by tid (map (on_async_send i) posts)) (sym ((==_iff k tid).0 same)))),
)
poll_found-Moved k tid s (some posts) q false at found other = (
  q,
  assigned k tid _ s.io_service false other ∙ found,
  append-nil q ∙ ap (λ xs. xs ++ q) (sym (sent_by_other tid k posts other)),
)

take_turn-Moved :
    (tid : ℕ) (t : Turn) (s : Server) (q : List Post)
    → Dict.find tid s.io_service ≡ some q
    → Moved tid q (posts_to tid (t ∷ [])) (sent_by tid (take_turn t s).1) (take_turn t s).0
unfolding take_turn async_send poll
take_turn-Moved tid (sends session msg opcode) s q found =
    post_to-Moved session.tid tid
      (record { connection = session.conn_addr; text = msg; opcode = opcode }) s
      (Dict.find session.tid s.io_service) q (session.tid == tid) refl found refl
take_turn-Moved tid (polls k) s q found =
    poll_found-Moved k tid s (Dict.find k s.io_service) q (k == tid) refl found refl

posts_to-cons :
    (tid : ℕ) (t : Turn) (turns : List Turn)
    → posts_to tid (t ∷ turns) ≡ posts_to tid (t ∷ []) ++ posts_to tid turns
posts_to-cons tid (polls k) turns = refl
posts_to-cons tid (sends session msg opcode) turns = ground arith

take_turns-Moved :
    (tid : ℕ) (turns : List Turn) (s : Server) (q : List Post)
    → Dict.find tid s.io_service ≡ some q
    → Moved tid q (posts_to tid turns) (sent_by tid (take_turns turns s).1) (take_turns turns s).0
unfolding take_turns Moved
take_turns-Moved tid [] s q found = (q, found, append-nil q)
take_turns-Moved tid (t ∷ turns) s q found =
    let (q1, found1, moved1) = take_turn-Moved tid t s q found in
    let (q2, found2, moved2) = take_turns-Moved tid turns (take_turn t s).0 q1 found1 in
    (
      q2,
      found2,
      ap (λ xs. q ++ xs) (posts_to-cons tid t turns)
          ∙ sym (append_assoc q (posts_to tid (t ∷ [])) (posts_to tid turns))
          ∙ ap (λ xs. xs ++ posts_to tid turns) moved1
          ∙ append_assoc (sent_by tid (take_turn t s).1) q1 (posts_to tid turns)
          ∙ ap (λ xs. sent_by tid (take_turn t s).1 ++ xs) moved2
          ∙ sym (
              append_assoc (sent_by tid (take_turn t s).1)
                (sent_by tid (take_turns turns (take_turn t s).0).1) q2)
          ∙ ap (λ xs. xs ++ q2)
              (sym (sent_by-append tid (take_turn t s).1 (take_turns turns (take_turn t s).0).1)),
    )

poll-drains :
    (tid : ℕ) (s : Server) (q : List Post)
    → Dict.find tid s.io_service ≡ some q
    → (Dict.find tid (poll tid s).0.io_service ≡ some []) × (sent_by tid (poll tid s).1 ≡ q)
unfolding poll
poll-drains tid s q found =
    let e = ap (poll_found tid s) found in
    (
      ap (λ r. Dict.find tid r.0.io_service) e
          ∙ assigned tid tid [] s.io_service true ((==_iff tid tid).1 refl),
      ap (λ r. sent_by tid r.1) e ∙ sent_by_self tid q,
    )

-- For a thread that has started, and any turns of sessions and threads: what waited for it, and then
-- what its sessions sent, is in this order what it has passed on, and then what still waits. A
-- round of the thread itself leaves nothing waiting.
pub sends_in_order :
    (tid : ℕ) (turns : List Turn) (s : Server) (q : List Post)
    → Dict.find tid s.io_service ≡ some q
    → let (s', sent) = take_turns turns s in
      (waiting : List Post) × (Dict.find tid s'.io_service ≡ some waiting)
      × (q ++ posts_to tid turns ≡ sent_by tid sent ++ waiting)
      × (Dict.find tid (poll tid s').0.io_service ≡ some [])
      × (sent_by tid (poll tid s').1 ≡ waiting)
unfolding Moved
sends_in_order tid turns s q found =
    let (waiting, found', moved) = take_turns-Moved tid turns s q found in
    let (emptied, rest) = poll-drains tid (take_turns turns s).0 waiting found' in
    (waiting, found', moved, emptied, rest)
