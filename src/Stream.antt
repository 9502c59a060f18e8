-- ===== src/Stream.antt =====
-- An answer on its way from QGIS to the HTTP handler: the writes and flushes of
-- src/pyqgisserver/qgsworker.py, the frames of zeromq/worker.py, and their reading in
-- zeromq/client.py. Here every send succeeds.
pub mod Chunked
pub mod Losses
mod Examples
use mathlib.Core.List.{append_assoc}
use py_qgis_server.Prelude.{
  ℕ, ◌≡◌, refl, Bool, true, false, Option, none, some, List, [], ◌∷◌, ◌++◌, map, Result, ok, raise,
  arith, if◌then◌else◌, ltb, length,
}
use py_qgis_server.Prelude.Actions.{Action, pure, ◌>>=◌, ◌>>◌}
use py_qgis_server.Dict
use py_qgis_server.Messages.{Content, Headers, number, Metadata, Payload, reply, chunk}
use py_qgis_server.Worker
use py_qgis_server.Worker.{Wire}
use py_qgis_server.Response
use py_qgis_server.Response.{Response, Method, write, flush, finish}
use py_qgis_server.Client
use py_qgis_server.Client.{set_result, fetch_more}

abbrev pub up : Wire
up sent p = true

abbrev pub concat : List Content → Content
concat [] = []
concat (b ∷ bs) = b ++ concat bs

abbrev pub null : List Content → Bool
null [] = true
null (b ∷ bs) = false

module _ (message : Content) (wire : Wire) (meta : Option Metadata) where
  -- QGIS writes each part and flushes it.
  unfoldable pub flush_parts : List Content → Method
  unfolding write flush
  flush_parts [] = pure tt
  flush_parts (b ∷ bs) = do write b; flush message wire meta; flush_parts bs

  -- Then it writes the last part and finishes.
  unfoldable pub answer : List Content → Content → Method
  unfolding flush_parts finish
  answer parts last = do flush_parts parts; write last; finish message wire meta

-- A response that has the status `code` and the headers `hs`, and has sent nothing yet.
abbrev pub prepared : ℕ → Headers → Response
prepared code hs =
    Response.init (record { headers = hs; status_code = code; header_written = false; sent = [] })

-- The messages that an answer puts on the wire.
unfoldable pub messages :
    Content → Option Metadata → ℕ → Headers → List Content → Content → List Payload
unfolding answer
messages message meta code hs parts last =
    (answer message up meta parts last (prepared code hs)).1.handler.sent

-- The client's handler after all messages of an answer.
unfoldable pub receive_all : List Payload → Client.Handler → Client.Handler
unfolding set_result
receive_all [] h = h
receive_all (p ∷ ps) h = receive_all ps (set_result p h).1

-- What the HTTP handler writes out: the body, and the chunks that `fetch_more` yields.
unfoldable pub delivered : Client.Handler → Content
unfolding fetch_more
delivered h = elim h.body [ none ↦ [] | some b ↦ b ++ concat (fetch_more h.chunks).0 ]

-- The client's handler after the messages of one answer.
abbrev pub received :
    Content → Option Metadata → ℕ → Headers → List Content → Content → Client.Handler
received message meta code hs parts last =
    receive_all (messages message meta code hs parts last) Client.init
