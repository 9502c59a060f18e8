-- ===== src/Client.antt =====
-- `AsyncClient` and `AsyncResponseHandler` (src/pyqgisserver/zeromq/client.py): the requests that wait
-- for an answer, and what an incoming message does to them.
pub mod Isolation
mod Examples
use py_qgis_server.Prelude.{
  ℕ, Bool, true, false, not, ◌&&◌, Bytes, Option, none, some, List, [], ◌∷◌, ◌++◌, ◌==◌, nat_eq,
  string_eq, if◌then◌else◌, Result, ok, raise,
}
use py_qgis_server.Dict
use py_qgis_server.Dict.{Dict}
use py_qgis_server.Messages.{Content, Headers, Metadata, Payload, reply, chunk, raw}

-- The state of an asyncio future; a failure carries what `RequestProxyError` was made from.
pub data Future : Type 0 where
  pending cancelled done : Future
  failed : Payload → Future

-- `status` is `none` where the source has -1.
pub record Handler : Type 0 where
  pub future : Future
  pub chunks : List (Content × Bool)
  pub has_more : Bool
  pub headers : Headers
  pub body : Option Content
  pub metadata : Option Metadata
  pub status : Option ℕ

abbrev pub init : Handler
init = record {
  future = pending;
  chunks = [];
  has_more = false;
  headers = [];
  body = none;
  metadata = none;
  status = none;
}

-- `invalid_state` is raised by a future that is settled, `bad_message` by pickle or by taking a
-- message apart.
pub data Error : Type 0 where
  invalid_state bad_message : Error

-- `future.set_result(self)` and `future.set_exception(exc)`
unfoldable pub settle : Future → Handler → Result Error (Unit {0}) × Handler
settle f h = elim h.future [
  | pending ↦ (ok tt, record h { future = f })
  | _ ↦ (raise invalid_state, h)
]

-- `_set_exception`
unfoldable pub set_exception : Payload → Handler → Result Error (Unit {0}) × Handler
unfolding settle
set_exception p h = settle (failed p) (record h { has_more = false })

-- `_set_result`, by the message and by the status so far
unfoldable pub set_result : Payload → Handler → Result Error (Unit {0}) × Handler
unfolding settle
set_result p h = elim h.status [
  | none ↦ elim p [
    | reply code headers body meta ↦ settle done (record h {
      headers = headers;
      body = some body;
      status = some code;
      metadata = meta;
      has_more = if code == 206 then true else h.has_more;
    })
    | _ ↦ (raise bad_message, h)
  ]
  | some code ↦
      if h.has_more
      then (elim p [
        | chunk body more meta ↦
            (ok tt, record h { has_more = more; chunks = h.chunks ++ (body, more) ∷ [] })
        | _ ↦ (raise bad_message, h)
      ])
      else (ok tt, h)
]

abbrev pub settled : Future → Bool
settled pending = false
settled _ = true

-- `_done`
unfoldable pub is_done : Handler → Bool
is_done h = not h.has_more && settled h.future

-- The table `_handlers`.
abbrev pub Handlers : Type 0
Handlers = Dict Bytes Handler

-- A message: its correlation id, its payload, and further frames.
pub record Message : Type 0 where
  pub correlation_id : Bytes
  pub payload : Payload
  pub rest : List Payload

abbrev pub is_err : Payload → Bool
is_err (raw b) = b == "ERR"
is_err _ = false

-- The handler's answer to the message.
unfoldable pub deliver : Message → Handler → Result Error (Unit {0}) × Handler
unfolding set_exception set_result
deliver m h = elim m.rest [
  | [] ↦ set_result m.payload h
  | r ∷ rs ↦ if is_err m.payload then set_exception r h else set_result m.payload h
]

-- What `_poll` does after the delivery: a handler that raised stays, and one that is done goes.
unfoldable pub after_delivery : Bytes → Handlers → Result Error (Unit {0}) × Handler → Handlers
unfolding is_done Dict.put Dict.remove
after_delivery c hs (raise x, h) = Dict.put c h hs
after_delivery c hs (ok _, h) = if is_done h then Dict.remove c hs else Dict.put c h hs

-- One round of the loop in `_poll`; a message of no known request is only logged.
unfoldable pub receive : Message → Handlers → Handlers
unfolding after_delivery deliver Dict.get
receive m hs = elim (Dict.get m.correlation_id hs) [
  | none ↦ hs
  | some h ↦ after_delivery m.correlation_id hs (deliver m h)
]

-- `_poll` while there are handlers: the messages that it reads, and those that it leaves.
unfoldable pub poll : List Message → Handlers → List Message × Handlers
unfolding receive
poll [] hs = ([], hs)
poll (m ∷ ms) [] = (m ∷ ms, [])
poll (m ∷ ms) (e ∷ hs) = poll ms (receive m (e ∷ hs))

pub data FetchError : Type 0 where
  gateway assertion : FetchError

-- `fetch` up to its wait, for a fresh id: the request is registered if the socket takes it.
unfoldable pub fetch : Bytes → Bool → Handlers → Result FetchError (Unit {0}) × Handlers
unfolding Dict.get Dict.put
fetch c sends hs = elim (Dict.get c hs) [
  | some _ ↦ (raise assertion, hs)
  | none ↦ if sends then (ok tt, Dict.put c init hs) else (raise gateway, hs)
]

-- `wait_for` runs out of time: the future is cancelled.
unfoldable pub expire : Bytes → Handlers → Handlers
unfolding Dict.get Dict.put settle
expire c hs = elim (Dict.get c hs) [ none ↦ hs | some h ↦ Dict.put c (settle cancelled h).1 hs ]

-- The exception handler of `fetch` and of `fetch_more`: the request is forgotten.
unfoldable pub give_up : Bytes → Handlers → Handlers
unfolding Dict.remove
give_up c hs = Dict.remove c hs

-- `fetch_more` on the chunks that came: those that it yields, and whether it came to the end.
unfoldable pub fetch_more : List (Content × Bool) → List Content × Bool
fetch_more [] = ([], false)
fetch_more ((body, more) ∷ rest) =
    let (bodies, ended) = fetch_more rest in if more then (body ∷ bodies, ended) else ([], true)

-- `terminate`
unfoldable pub terminate : Handlers → Handlers
terminate hs = []
