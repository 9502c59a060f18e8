-- ===== src/Broker.antt =====
-- The broker loop (src/pyqgisserver/zeromq/broker.py). One turn of `while True` is `turn`, over what
-- the sockets and the clock give in that turn; it returns the new state and the messages sent.
pub mod Assign
pub mod Dispatch
pub mod Sockets
pub mod Turns
pub mod Runs
mod Examples
use py_qgis_server.Prelude.{
  ℕ, zero, suc, ◌-◌, Bytes, Bool, Option, none, some, List, [], ◌∷◌, ◌++◌, ◌==◌, string_eq, ltb,
  leb, if◌then◌else◌, length, contains,
}

-- `WORKER_READY` of zeromq/messages.py
abbrev pub worker_ready : Bytes
worker_ready = "ready"

-- An entry of `waiting`.
pub record Request : Type 0 where
  pub time : ℕ
  pub client : Bytes
  pub msgid : Bytes
  pub body : Bytes

-- The set `workers`, and the deque `waiting` from its right end, where the next request is popped.
pub record Broker : Type 0 where
  pub workers : List Bytes
  pub waiting : List Request

pub data Event : Type 0 where
  to_client : List Bytes → Event
  to_worker : Bytes → Request → Event
  dropped : Request → Event

-- What the loop cannot choose in one turn: the messages that poll finds, the clock at the two calls
-- of `time()`, the element that `set.pop` takes, and which sends raise no `ZMQError`.
pub record Input : Type 0 where
  pub backend : Option (List Bytes)
  pub frontend : Option (List Bytes)
  pub arrival : ℕ
  pub now : ℕ
  pub pick : List Bytes → ℕ
  pub frontend_sends : List Bytes → Bool
  pub backend_sends : List Bytes → Bool

pub record Outcome : Type 0 where
  pub workers : List Bytes
  pub waiting : List Request
  pub events : List Event

abbrev pub frames : Bytes → Request → List Bytes
frames w q = w ∷ q.client ∷ q.msgid ∷ q.body ∷ []

-- `frontend.send_multipart` with its handler
unfoldable pub send_client : Input → List Bytes → List Event
send_client i msg = if i.frontend_sends msg then to_client msg ∷ [] else []

-- `workers.add`, guarded as in the source
unfoldable pub add_worker : Bytes → Broker → Broker
add_worker w b = if contains w b.workers then b else record b { workers = b.workers ++ w ∷ [] }

-- `msgid, data = rest` and the reply; other lengths raise, and the handler only logs
unfoldable pub reply : Input → Bytes → List Bytes → List Event
unfolding send_client
reply i client (msgid ∷ body ∷ []) = send_client i (client ∷ msgid ∷ body ∷ [])
reply i client _ = []

-- "Handle worker activity on the backends"
unfoldable pub on_backend : Input → List Bytes → Broker → Broker × List Event
unfolding add_worker reply
on_backend i (worker ∷ client ∷ rest) b =
    if client == worker_ready then (add_worker worker b, []) else (b, reply i client rest)
on_backend i _ b = (b, [])

-- "Handle incoming client requests"
unfoldable pub on_frontend : ℕ → Input → List Bytes → Broker → Broker × List Event
unfolding send_client
on_frontend maxqueue i (client ∷ msgid ∷ body ∷ []) b =
    if leb maxqueue (length b.waiting)
    then (b, send_client i (client ∷ msgid ∷ "ERR" ∷ "509" ∷ []))
    else (
      record b {
        waiting =
            b.waiting
            ++ record { time = i.arrival; client = client; msgid = msgid; body = body } ∷ [];
      },
      [],
    )
on_frontend maxqueue i _ b = (b, [])

-- `workers.pop()` on the set of `x` and `xs`: the element at some place, and the others
unfoldable pub pop_at : ℕ → Bytes → List Bytes → Bytes × List Bytes
pop_at zero x xs = (x, xs)
pop_at (suc n) x [] = (x, [])
pop_at (suc n) x (y ∷ ys) = let (w, rest) = pop_at n y ys in (w, x ∷ rest)

-- The inner `while workers`: tries workers until a send succeeds; `none` when none is left. Each
-- round takes one worker away, so their number is fuel enough.
unfoldable pub assign : Input → Request → ℕ → List Bytes → List Bytes × Option Bytes
unfolding pop_at
assign i q zero ws = (ws, none)
assign i q (suc n) [] = ([], none)
assign i q (suc n) (x ∷ xs) =
    let (w, rest) = pop_at (i.pick (x ∷ xs)) x xs in
    let next = assign i q n rest in if i.backend_sends (frames w q) then (rest, some w) else next

abbrev pub emit : Event → Outcome → Outcome
emit e o = record o { events = e ∷ o.events }

abbrev pub expired : ℕ → Input → Request → Bool
expired timeout i q = ltb timeout (i.now - q.time)

-- The outer `while workers and waiting`
unfoldable pub dispatch : ℕ → Input → List Bytes → List Request → Outcome
unfolding assign
dispatch timeout i ws [] = record { workers = ws; waiting = []; events = [] }
dispatch timeout i [] (q ∷ qs) = record { workers = []; waiting = q ∷ qs; events = [] }
dispatch timeout i (w ∷ ws) (q ∷ qs) =
    let drop = emit (dropped q) (dispatch timeout i (w ∷ ws) qs) in
    let (rest, sent) = assign i q (length (w ∷ ws)) (w ∷ ws) in
    let hand_over : Outcome = elim sent [
      | none ↦ record { workers = rest; waiting = q ∷ qs; events = [] }
      | some v ↦ emit (to_worker v q) (dispatch timeout i rest qs)
    ] in
    if expired timeout i q then drop else hand_over

abbrev on_some :
    {A : Type 0} → (A → Broker → Broker × List Event) → Option A → Broker → Broker × List Event
on_some f none b = (b, [])
on_some f (some msg) b = f msg b

-- The turn of the loop: both sockets if poll names them, then the waiting requests.
unfoldable pub turn : ℕ → ℕ → Input → Broker → Broker × List Event
unfolding on_backend on_frontend dispatch
turn maxqueue timeout i b =
    let (b1, replies) = on_some (on_backend i) i.backend b in
    let (b2, errors) = on_some (on_frontend maxqueue i) i.frontend b1 in
    let o = dispatch timeout i b2.workers b2.waiting in
    (record { workers = o.workers; waiting = o.waiting }, replies ++ (errors ++ o.events))

-- The loop over the turns that the environment gives it
unfoldable pub turns : ℕ → ℕ → List Input → Broker → Broker × List Event
unfolding turn
turns maxqueue timeout [] b = (b, [])
turns maxqueue timeout (i ∷ is) b =
    let (b1, events) = turn maxqueue timeout i b in
    let (b2, later) = turns maxqueue timeout is b1 in (b2, events ++ later)
