-- ===== src/Messages.antt =====
-- The messages between a worker and a client (src/pyqgisserver/zeromq/messages.py): the frames that
-- carry an answer, as the values that pickle wraps and unwraps.
use py_qgis_server.Prelude.{ℕ, Bool, String, Bytes, Option, List}
use py_qgis_server.Dict.{Dict}

-- The bytes of a body.
abbrev pub Content : Type 0
Content = List ℕ

pub data HeaderValue : Type 0 where
  text : String → HeaderValue
  number : ℕ → HeaderValue

abbrev pub Headers : Type 0
Headers = Dict String HeaderValue

abbrev pub Metadata : Type 0
Metadata = Dict String ℕ

-- `reply` is a pickled `ReplyMessage`, `chunk` the pickled triple of a later part, and `raw` any
-- other frame, such as the broker's `ERR`.
pub data Payload : Type 0 where
  reply : ℕ → Headers → Content → Option Metadata → Payload
  chunk : Content → Bool → Option Metadata → Payload
  raw : Bytes → Payload
