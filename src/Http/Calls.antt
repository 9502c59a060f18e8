-- ===== src/Http/Calls.antt =====
-- What an HTTP handler works on: the request, the calls that it makes of the HTTP server, and the
-- counters of the application.
use py_qgis_server.Prelude.{ℕ, String, Bool, Option, List, [], ◌∷◌, ◌++◌}
use py_qgis_server.Prelude.Actions.{Action, modify}
use py_qgis_server.Dict.{Dict}
use py_qgis_server.Messages.{Metadata}
use py_qgis_server.Text.{Text}

-- `RequestTimeoutError`, `RequestGatewayError`, and any other exception.
pub data Error : Type 0 where
  timeout_error gateway_error other_error : Error

-- `arguments` has those of the query and of the body, each with all its values.
pub record Request : Type 0 where
  pub headers : Dict String Text
  pub arguments : Dict String (List Text)
  pub body_arguments : Dict String (List Text)
  pub body : Text
  pub uri : Text
  pub path : Text
  pub protocol : Text
  pub host : Text

-- The calls of the HTTP server's methods.
pub data Call : Type 0 where
  set_header : String → Text → Call
  set_status : ℕ → Call
  write : Text → Call
  flush finish : Call
  send_error : ℕ → String → Call

-- A parameter of a report: a text, or the values of an argument.
pub data Parameter : Type 0 where
  one : Text → Parameter
  many : List Text → Parameter

-- What `emit` gives the monitor; the time is in milliseconds.
pub record Report : Type 0 where
  pub params : Dict String Parameter
  pub response_time : ℕ
  pub response_status : ℕ
  pub response_memused : ℕ

pub record Exchange : Type 0 where
  pub request : Request
  pub has_body_arguments : Bool
  pub calls : List Call
  pub num_requests : ℕ
  pub num_errors : ℕ
  pub emitted : List Report

-- What is sent to a worker, and its answer: the chunks that come after a first part, and the
-- exception that ends them, if any.
pub record Fetch : Type 0 where
  pub query : Text
  pub method : String
  pub headers : Dict String Text
  pub body : Option Text

pub record Answer : Type 0 where
  pub status : ℕ
  pub headers : Dict String Text
  pub body : Text
  pub metadata : Option Metadata
  pub chunks : List Text
  pub ending : Option Error

abbrev pub Handling : Type 0 → Type 0
Handling A = Action Error Exchange A

unfoldable pub call : Call → Handling (Unit {0})
call c = modify (λ s. record s { calls = s.calls ++ c ∷ [] })
