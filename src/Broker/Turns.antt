-- ===== src/Broker/Turns.antt =====
-- The broker as a whole: one turn of its loop, and any sequence of turns.
use py_qgis_server.Prelude.{
  ℕ, ◌+◌, ◌≤◌, ◌<◌, ◌≡◌, ◌≢◌, ◌⊎◌, refl, ap, ◌∙◌, Bytes, true, some, List, [], ◌∷◌, ◌++◌, arith,
  ==_iff, string_eq, length, length-append, count, count-pos, contains, All, All-append,
}
use py_qgis_server.Broker.{
  worker_ready, Request, Broker, Input, Outcome, Event, to_client, to_worker, dropped, frames,
  on_backend, on_frontend, dispatch, on_some, turn,
}
use py_qgis_server.Broker.Sockets.{
  accepted, announces, backend-waiting, backend-workers, backend-IsReply, backend-distinct,
  backend-keeps, frontend-waiting, frontend-workers, frontend-IsReply, length-accepted-le,
}
use py_qgis_server.Broker.Dispatch.{
  settled, assigned, InTime, dispatch-settled, dispatch-InTime, dispatch-exhausted,
  dispatch-workers, dispatch-reachable,
}

-- The queue is within its bound, and `workers` is a set.
pub record IsValid (maxqueue : ℕ) (b : Broker) : Type 0 where
  pub bounded : length b.waiting ≤ maxqueue
  pub distinct : (v : Bytes) → count v b.workers ≤ 1

pub settled-append : (xs ys : List Event) → settled (xs ++ ys) ≡ settled xs ++ settled ys
settled-append [] ys = refl
settled-append (to_client m ∷ xs) ys = settled-append xs ys
settled-append (to_worker w q ∷ xs) ys = ap (◌∷◌ q) (settled-append xs ys)
settled-append (dropped q ∷ xs) ys = ap (◌∷◌ q) (settled-append xs ys)

pub assigned-append : (xs ys : List Event) → assigned (xs ++ ys) ≡ assigned xs ++ assigned ys
assigned-append [] ys = refl
assigned-append (to_client m ∷ xs) ys = assigned-append xs ys
assigned-append (to_worker w q ∷ xs) ys = ap (◌∷◌ w) (assigned-append xs ys)
assigned-append (dropped q ∷ xs) ys = assigned-append xs ys

InTime-replies : (timeout now : ℕ) (es : List Event) → settled es ≡ [] → All (InTime timeout now) es
InTime-replies timeout now [] h = tt
InTime-replies timeout now (to_client m ∷ es) h = (tt, InTime-replies timeout now es h)
InTime-replies timeout now (to_worker w q ∷ es) h = cc
InTime-replies timeout now (dropped q ∷ es) h = cc

module _ (maxqueue timeout : ℕ) (i : Input) (b : Broker) where
  -- The state between the sockets and the waiting requests, and what the last step makes of it.
  abbrev pub after_backend : Broker
  after_backend = (on_some (on_backend i) i.backend b).0

  abbrev after_frontend : Broker
  after_frontend = (on_some (on_frontend maxqueue i) i.frontend after_backend).0

  abbrev outcome : Outcome
  outcome = dispatch timeout i after_frontend.workers after_frontend.waiting

  abbrev replies : List Event
  replies = (on_some (on_backend i) i.backend b).1

  abbrev errors : List Event
  errors = (on_some (on_frontend maxqueue i) i.frontend after_backend).1

  turn-steps : turn maxqueue timeout i b ≡ (
    record { workers = outcome.workers; waiting = outcome.waiting },
    replies ++ (errors ++ outcome.events),
  )
  unfolding turn
  turn-steps = refl

  -- The replies and the errors leave no trace in what is settled and assigned.
  pub settled-turn : settled (turn maxqueue timeout i b).1 ≡ settled outcome.events
  unfolding turn
  settled-turn = simp (
    settled-append,
    (backend-IsReply i i.backend b).settles,
    (frontend-IsReply maxqueue i i.frontend after_backend).settles,
  )

  assigned-turn : assigned (turn maxqueue timeout i b).1 ≡ assigned outcome.events
  unfolding turn
  assigned-turn = simp (
    assigned-append,
    (backend-IsReply i i.backend b).assigns,
    (frontend-IsReply maxqueue i i.frontend after_backend).assigns,
  )

  -- What a turn takes into the queue.
  abbrev pub taken : List Request
  taken = accepted maxqueue i i.frontend (length b.waiting)

  queue-turn : after_frontend.waiting ≡ b.waiting ++ taken
  queue-turn =
      rw (frontend-waiting maxqueue i i.frontend after_backend, backend-waiting i i.backend b)

  -- The requests that a turn settles, then those that still wait, are those that waited, then the
  -- one that came in: first come, first served, and none is lost, doubled or invented.
  pub turn-conserves :
      settled (turn maxqueue timeout i b).1 ++ (turn maxqueue timeout i b).0.waiting
      ≡ b.waiting ++ taken
  turn-conserves = rw settled-turn (
      unfold turn in
      (dispatch-settled timeout i after_frontend.workers after_frontend.waiting ∙ queue-turn))

  -- A turn sends a worker only requests that are within the time limit, and drops only others.
  pub turn-InTime : All (InTime timeout i.now) (turn maxqueue timeout i b).1
  unfolding turn
  turn-InTime =
      All-append (InTime timeout i.now) replies (errors ++ outcome.events)
        (InTime-replies timeout i.now replies (backend-IsReply i i.backend b).settles)
        (All-append (InTime timeout i.now) errors outcome.events
          (InTime-replies timeout i.now errors
            (frontend-IsReply maxqueue i i.frontend after_backend).settles)
          (dispatch-InTime timeout i after_frontend.workers after_frontend.waiting))

  -- After a turn, no worker is available or no request waits.
  pub turn-exhausted :
      ((turn maxqueue timeout i b).0.workers ≡ []) ⊎ ((turn maxqueue timeout i b).0.waiting ≡ [])
  unfolding turn
  turn-exhausted = dispatch-exhausted timeout i after_frontend.workers after_frontend.waiting

  -- The requests given to a worker in a turn, with its places left, are at most the places it had
  -- and the announcements that it made.
  pub turn-workers :
      (v : Bytes)
      → count v (assigned (turn maxqueue timeout i b).1)
          + count v (turn maxqueue timeout i b).0.workers
        ≤ count v b.workers + announces v i.backend
  turn-workers v = rw assigned-turn (
      unfold turn in
      omega (
        arith,
        dispatch-workers timeout i v after_frontend.workers after_frontend.waiting,
        ap (count v) (frontend-workers maxqueue i i.frontend after_backend),
        backend-workers i i.backend b v,
      ))

  -- A turn keeps the queue within its bound and `workers` a set.
  pub turn-IsValid : IsValid maxqueue b → IsValid maxqueue (turn maxqueue timeout i b).0
  turn-IsValid h = record {
    bounded = omega (
      arith,
      h.bounded,
      ap length turn-conserves,
      length-append (settled (turn maxqueue timeout i b).1) (turn maxqueue timeout i b).0.waiting,
      length-append b.waiting taken,
      length-accepted-le maxqueue i i.frontend (length b.waiting) h.bounded,
    );
    distinct = λ v.
        unfold turn in
        omega (
          arith,
          dispatch-workers timeout i v after_frontend.workers after_frontend.waiting,
          ap (count v) (frontend-workers maxqueue i i.frontend after_backend),
          backend-distinct i i.backend b v (h.distinct v),
        );
  }

  -- If a request waits and an available worker can be reached, the turn settles the request that
  -- waited longest.
  pub turn-progress :
      (v : Bytes) (q : Request) (qs : List Request)
      → b.waiting ≡ q ∷ qs
      → contains v b.workers ≡ true
      → i.backend_sends (frames v q) ≡ true
      → (rest : List Request) × (settled (turn maxqueue timeout i b).1 ≡ q ∷ rest)
  turn-progress v q qs e c s =
      let there : 0 < count v after_frontend.workers = omega (
        arith,
        count-pos v b.workers c,
        backend-keeps i i.backend b v,
        ap (count v) (frontend-workers maxqueue i i.frontend after_backend),
      ) in
      let queue : after_frontend.waiting ≡ q ∷ (qs ++ taken) =
        queue-turn ∙ ap (λ l. l ++ taken) e in
      rw (settled-turn, queue)
        (dispatch-reachable timeout i v after_frontend.workers q (qs ++ taken) there s)

  -- A request that finds the queue full is not taken in, and its client gets the error 509 if it can
  -- be reached.
  pub turn-rejects :
      (client msgid body : Bytes)
      → i.frontend ≡ some (client ∷ msgid ∷ body ∷ [])
      → maxqueue ≤ length b.waiting
      → i.frontend_sends (client ∷ msgid ∷ "ERR" ∷ "509" ∷ []) ≡ true
      → (taken ≡ [])
        × (before after : List Event) × ((turn maxqueue timeout i b).1
            ≡ before ++ (to_client (client ∷ msgid ∷ "ERR" ∷ "509" ∷ []) ∷ after))
  turn-rejects client msgid body e full s =
      let same : after_backend.waiting ≡ b.waiting = backend-waiting i i.backend b in
      let answered : errors ≡ to_client (client ∷ msgid ∷ "ERR" ∷ "509" ∷ []) ∷ [] =
        rw e (unfold on_frontend in ground (arith, same)) in
      (rw e (ground arith), replies, outcome.events, unfold turn in rw answered)

  -- A worker's reply goes to the client that it names, first of all that the turn sends, and changes
  -- neither the workers nor the queue that the rest of the turn starts from.
  pub turn-forwards :
      (worker client msgid body : Bytes)
      → i.backend ≡ some (worker ∷ client ∷ msgid ∷ body ∷ [])
      → client ≢ worker_ready
      → i.frontend_sends (client ∷ msgid ∷ body ∷ []) ≡ true
      → (after_backend ≡ b)
        × (after : List Event) × ((turn maxqueue timeout i b).1
            ≡ to_client (client ∷ msgid ∷ body ∷ []) ∷ after)
  turn-forwards worker client msgid body e other s =
      let answered : (after_backend ≡ b) × (replies ≡ to_client (client ∷ msgid ∷ body ∷ []) ∷ []) =
        rw e (unfold on_backend in ground (arith, ==_iff client worker_ready)) in
      (answered.0, errors ++ outcome.events, unfold turn in rw (answered.1))
