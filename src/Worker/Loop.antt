-- ===== src/Worker/Loop.antt =====
-- `run_worker` (src/pyqgisserver/zeromq/worker.py): the message loop of a worker. The socket, the
-- request handler and the broadcasts are arguments of a round.
use py_qgis_server.Prelude.{
  Bool, false, Option, none, some, List, [], ◌∷◌, ◌++◌, map, Result, ok, raise, if◌then◌else◌,
}
use py_qgis_server.Messages.{Content, Payload}
use py_qgis_server.Supervisor.{
  Attempt, Client, Notice, Sending, busy, done, notify_busy, notify_done, send_report,
}
use py_qgis_server.Worker.{Handler, Wire, init, send}

-- How a call ended: `again` and `zmq_error` are the two kinds of errors of the sockets.
pub data Outcome : Type 0 where
  finished again zmq_error exception : Outcome

-- A broadcast that is found; `failure` is an exception of its socket other than EAGAIN, or of the
-- report that is asked for.
pub data Broadcast (R : Type 0) : Type 0 where
  silence restart other failure : Broadcast R
  report : R → Broadcast R

-- What a round meets: whether `sock.send(WORKER_READY)` returns, how the reception ends, whether the handler can be made, what its
-- `handle_message` does, what the sockets of the answers and of the notices take, and the broadcast that it
-- finds.
pub record Round (R : Type 0) : Type 0 where
  pub announced : Bool
  pub reception : Outcome
  pub construction : Outcome
  pub handle_message : Handler → Outcome × Handler
  pub wire : Wire
  pub sending : Notice R → Sending
  pub broadcast : Broadcast R

-- What the worker does to the outside.
pub data Event (R : Type 0) : Type 0 where
  ready : Event R
  notice : Notice R → Sending → Event R
  answer : Payload → Event R

pub data Status : Type 0 where
  looping exited crashed : Status

pub record Loop (R : Type 0) : Type 0 where
  pub status : Status
  pub supervisor : Client
  pub events : List (Event R)

-- `b"Worker internal error"`
abbrev pub internal_error : Content
internal_error =
    87 ∷ 111 ∷ 114 ∷ 107 ∷ 101 ∷ 114 ∷ 32 ∷ 105 ∷ 110 ∷ 116 ∷ 101 ∷ 114 ∷ 110 ∷ 97 ∷ 108 ∷ 32 ∷ 101
    ∷ 114 ∷ 114 ∷ 111 ∷ 114 ∷ []

-- `handler_factory(...)` and `handler.handle_message()`: how they end, and the handler, if there is one
unfoldable pub handle : {R : Type 0} → Round R → Outcome × Option Handler
handle r = elim r.construction [
  | finished ↦ ((r.handle_message init).0, some (r.handle_message init).1)
  | again ↦ (again, none)
  | zmq_error ↦ (zmq_error, none)
  | exception ↦ (exception, none)
]

unfoldable pub after_send : {E : Type 0} → Result E (Unit {0}) × Handler → Status × Option Handler
after_send (ok _, h) = (exited, some h)
after_send (raise _, h) = (crashed, some h)

-- The `except` clauses: whether the loop goes on, and the handler.
unfoldable pub recover : Wire → Outcome → Option Handler → Status × Option Handler
unfolding after_send send
recover wire exception (some h) =
    if h.header_written
    then (looping, some h)
    else after_send (send wire internal_error false none (record h { status_code = 500 }))
recover wire exception none = (looping, none)
recover wire finished o = (looping, o)
recover wire again o = (looping, o)
recover wire zmq_error o = (looping, o)

-- What a handler has sent.
unfoldable pub answers : {R : Type 0} → Option Handler → List (Event R)
answers none = []
answers (some h) = map answer h.sent

module _ {R : Type 0} where
  abbrev notices : List (Attempt R) → List (Event R)
  notices = map (λ a. notice a.0 a.1)

  -- The first `try` of a round, with its `finally`.
  unfoldable pub serve : Round R → Client → Status × Client × List (Event R)
  unfolding handle recover answers notify_busy notify_done
  serve r c = elim r.reception [
    | finished ↦
        let before = notify_busy {R = R} (r.sending busy) c in
        let tried = handle r in
        let end = recover r.wire tried.0 tried.1 in
        let after = notify_done {R = R} (r.sending done) before.0 in
        (end.0, after.0, notices before.1 ++ (answers end.1 ++ notices after.1))
    | again ↦ (
      looping,
      (notify_done {R = R} (r.sending done) c).0,
      notices (notify_done {R = R} (r.sending done) c).1,
    )
    | zmq_error ↦ (
      looping,
      (notify_done {R = R} (r.sending done) c).0,
      notices (notify_done {R = R} (r.sending done) c).1,
    )
    | exception ↦ (
      looping,
      (notify_done {R = R} (r.sending done) c).0,
      notices (notify_done {R = R} (r.sending done) c).1,
    )
  ]

  -- The broadcast part of a round, when the loop goes on.
  unfoldable pub listen : Round R → Client → Status × List (Event R)
  unfolding send_report
  listen r c = elim r.broadcast [
    | silence ↦ (looping, [])
    | restart ↦ (exited, [])
    | other ↦ (looping, [])
    | failure ↦ (crashed, [])
    | report x ↦ (looping, notices (send_report x (r.sending (Notice.report x)) c).1)
  ]

  unfoldable pub close_round : Round R → Status × Client × List (Event R) → Loop R
  unfolding listen
  close_round r (looping, c, es) = record {
    status = (listen r c).0;
    supervisor = c;
    events = es ++ (listen r c).1;
  }
  close_round r (exited, c, es) = record { status = exited; supervisor = c; events = es }
  close_round r (crashed, c, es) = record { status = crashed; supervisor = c; events = es }

  unfoldable pub round : Round R → Client → Loop R
  unfolding serve close_round
  round r c =
      let l = close_round r (serve r c) in
      if r.announced
      then record l { events = ready ∷ l.events }
      else record { status = crashed; supervisor = c; events = [] }

  -- After a round: the next ones, unless the loop has been left.
  unfoldable pub chain : Status → Loop R → Loop R → Loop R
  chain looping l rest = record rest { events = l.events ++ rest.events }
  chain exited l rest = l
  chain crashed l rest = l

  -- `run_worker`, for the rounds that its surroundings offer
  unfoldable pub run : List (Round R) → Client → Loop R
  unfolding round chain
  run [] c = record { status = looping; supervisor = c; events = [] }
  run (r ∷ rs) c = let l = round r c in let rest = run rs l.supervisor in chain l.status l rest
