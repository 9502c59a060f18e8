-- ===== src/Worker.antt =====
-- `RequestHandler` (src/pyqgisserver/zeromq/worker.py): how a worker frames its answer.
pub mod Brackets
mod Examples
pub mod Failures
pub mod Loop
use py_qgis_server.Prelude.{
  ℕ, Bool, true, false, not, ◌&&◌, Option, List, [], ◌∷◌, ◌++◌, ◌==◌, nat_eq, if◌then◌else◌,
}
use py_qgis_server.Prelude.Actions.{Action, pure, throw, modify, gets, when, ◌>>=◌, ◌>>◌}
use py_qgis_server.Messages.{Content, Headers, Metadata, Payload, reply, chunk}

pub data Error : Type 0 where
  zmq_error key_error : Error

-- The fields that the methods read and write, and what the socket has been given so far.
pub record Handler : Type 0 where
  pub headers : Headers
  pub status_code : ℕ
  pub header_written : Bool
  pub sent : List Payload

-- `__init__`
abbrev pub init : Handler
init = record { headers = []; status_code = 200; header_written = false; sent = [] }

-- The socket: whether it takes the next message, given those that it took.
abbrev pub Wire : Type 0
Wire = List Payload → Payload → Bool

-- `_write`
unfoldable pub write : Wire → Payload → Action Error Handler (Unit {0})
write wire p h =
    if wire h.sent p then pure tt (record h { sent = h.sent ++ p ∷ [] }) else throw zmq_error h

-- The two branches of `send`.
unfoldable pub send_header :
    Wire → Content → Bool → Option Metadata → Action Error Handler (Unit {0})
unfolding write
send_header wire body more meta = do
  code ← gets (λ h. h.status_code)
  when (more && code == 200) (modify (λ h. record h { status_code = 206 }))
  code ← gets (λ h. h.status_code)
  headers ← gets (λ h. h.headers)
  write wire (reply code headers body meta)
  modify (λ h. record h { header_written = true })

unfoldable pub send_chunk :
    Wire → Content → Bool → Option Metadata → Action Error Handler (Unit {0})
unfolding write
send_chunk wire body more meta = do
  code ← gets (λ h. h.status_code)
  when (code == 206) (do
    write wire (chunk body more meta)
    when (not more) (modify (λ h. record h { status_code = 200 })))

unfoldable pub send : Wire → Content → Bool → Option Metadata → Action Error Handler (Unit {0})
unfolding send_header send_chunk
send wire body more meta = do
  written ← gets (λ h. h.header_written)
  if written then send_chunk wire body more meta else send_header wire body more meta
