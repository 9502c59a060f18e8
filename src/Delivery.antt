-- ===== src/Delivery.antt =====
-- An answer all the way: from QGIS over the frames of the worker (src/pyqgisserver/qgsworker.py,
-- zeromq/worker.py) and the poll loop of the client (zeromq/client.py) to the response that the HTTP
-- handler (handlers/asynchandler.py) gives.
pub mod Objects
pub mod Whole
pub mod Served
mod Examples
use py_qgis_server.Prelude.{
  String, Bool, Bytes, Option, none, some, List, [], ◌∷◌, map, string_eq, ◌==◌, if◌then◌else◌,
  Result, ok, raise,
}
use py_qgis_server.Client
use py_qgis_server.Client.{Handler, Handlers, Message, deliver, fetch_more, receive}
use py_qgis_server.Dict
use py_qgis_server.Dict.{Dict}
use py_qgis_server.Http.Calls.{Answer, Error, other_error, timeout_error}
use py_qgis_server.Messages.{Content, HeaderValue, Payload}
use py_qgis_server.Text.{Text}

-- The handler object that `fetch` waits for, while `_poll` reads messages: a message of its id
-- changes it as long as it is in the table.
unfoldable pub watch : Bytes → List Message → Handlers → Handler → Handler
unfolding receive deliver Dict.get
watch c [] table h = h
watch c (m ∷ ms) table h = watch c ms (receive m table) (
    if m.correlation_id == c
    then elim (Dict.get c table) [ none ↦ h | some g ↦ (deliver m g).1 ]
    else h)

-- The chunks that `fetch_more` yields, and the time-out where the last one does not come.
unfoldable pub chunks_of : List Content × Bool → List Text × Option Error
chunks_of (bodies, ended) = (bodies, if ended then none else some timeout_error)

module _ (points : HeaderValue → Text) where
  -- The response that `fetch` returns, read by the HTTP handler; `points` puts a header's value in
  -- the form in which it is sent.
  unfoldable pub answer_of : Handler → Result Error Answer
  unfolding chunks_of fetch_more
  answer_of h = elim h.status [
    | none ↦ raise other_error
    | some code ↦ elim h.body [
      | none ↦ raise other_error
      | some body ↦ ok (record {
        status = code;
        headers = map (λ e. (e.0, points e.1)) h.headers;
        body = body;
        metadata = h.metadata;
        chunks = (chunks_of (fetch_more h.chunks)).0;
        ending = (chunks_of (fetch_more h.chunks)).1;
      })
    ]
  ]

  -- `_get`: the result of the future, or its exception; a future that stays pending runs out of time.
  unfoldable pub fetched : Handler → Result Error Answer
  unfolding answer_of
  fetched h = elim h.future [
    | Client.done ↦ answer_of h
    | Client.pending ↦ raise timeout_error
    | _ ↦ raise other_error
  ]

-- The messages that carry frames to the request of an id.
abbrev pub framed : Bytes → List Payload → List Message
framed c = map (λ p. record { correlation_id = c; payload = p; rest = [] })
