-- ===== src/Http.antt =====
-- `BaseHandler` (src/pyqgisserver/handlers/basehandler.py) and `AsyncClientHandler` (asynchandler.py):
-- an HTTP request on its way to a worker, and the answer on its way back.
mod Examples
pub mod Base
pub mod Calls
pub mod Counting
pub mod Services
pub mod Views
pub mod Writes
pub mod Headers
pub mod Proxy
pub mod Relay
use py_qgis_server.Prelude.{
  ℕ, suc, ◌-◌, String, Bool, true, false, ◌&&◌, Option, none, some, List, [], ◌∷◌, ◌++◌, map,
  string_eq, nat_eq, ◌==◌, leb, if◌then◌else◌, Result, ok, raise,
}
use py_qgis_server.Prelude.Actions.{
  Action, bind_result, catch, catch_result, modify, gets, pure, throw, maybe, when, ◌>>=◌, ◌>>◌,
}
use py_qgis_server.Dict
use py_qgis_server.Dict.{Dict}
use py_qgis_server.Http.Calls.{
  Answer, Call, Error, Exchange, Fetch, Handling, Parameter, Report, Request, call, flush,
  gateway_error, send_error, set_header, set_status, timeout_error, write,
}
use py_qgis_server.Http.Headers.{backend_headers, set_access_control_headers}
use py_qgis_server.Http.Proxy.{proxy_url}
use py_qgis_server.Http.Services.{Context, encode_arguments, get_monitor_params, is_given}
use py_qgis_server.Messages.{Metadata}
use py_qgis_server.Text.{Text, strip_left}

-- What `handle_request` knows at its end: the status, the time taken and the metadata.
abbrev pub Outcome : Type 0
Outcome = ℕ × ℕ × Option Metadata

-- `if data: self.write(data)`
unfoldable pub write_data : Text → Handling (Unit {0})
unfolding call
write_data [] = pure tt
write_data (c ∷ s) = call (write (c ∷ s))

-- `self.set_header(k, v)` for each header of the answer
unfoldable pub set_headers : Dict String Text → Handling (Unit {0})
unfolding call
set_headers [] = pure tt
set_headers ((k, v) ∷ rest) = call (set_header k v) >> set_headers rest

-- `async for` over the chunks, and the exception that ends them
unfoldable pub relay_chunks : List Text → Option Error → Handling (Unit {0})
unfolding call
relay_chunks [] none = pure tt
relay_chunks [] (some x) = throw x
relay_chunks (chunk ∷ rest) ending = call (write chunk) >> (call flush >> relay_chunks rest ending)

-- The response, by the status of the answer.
unfoldable pub respond : Answer → Handling (Unit {0})
unfolding write_data relay_chunks call
respond a =
    if a.status == 206
    then call (set_status 200)
      >> (write_data a.body >> (call flush >> relay_chunks a.chunks a.ending))
    else if a.status == 509
    then call (send_error a.status "Server busy, please retry later")
    else call (set_status a.status) >> write_data a.body

-- `meta.get('mem_used', 0)`
unfoldable pub mem_used : Option Metadata → ℕ
unfolding Dict.get
mem_used none = 0
mem_used (some d) = elim (Dict.get "mem_used" d) [ none ↦ 0 | some n ↦ n ]

-- `params.update(...)`: the report with these parameters
unfoldable pub report : Outcome → Dict String Parameter → Report
unfolding mem_used
report (status, time, meta) params = record {
  params = params;
  response_time = time;
  response_status = status;
  response_memused = mem_used meta;
}

module _ (c : Context) where
  -- The headers that start the request: the URL that the client used.
  unfoldable pub forwarded_headers : Text → Request → Dict String Text
  unfolding strip_left is_given
  forwarded_headers proxy r =
      if is_given proxy
      then ("X-Qgis-Forwarded-Url", proxy ++ strip_left (λ ch. ch == 47) r.path) ∷ []
      else []

  -- Whether the body's parameters go in the query.
  unfoldable pub has_parameters : Exchange → Result Error Bool
  unfolding is_given
  has_parameters s = elim (c.get_argument s.request "SERVICE") [
    | raise x ↦ raise x
    | ok none ↦ ok false
    | ok (some v) ↦ ok (is_given v && s.has_body_arguments)
  ]

  -- What is sent, with these headers, if the parameters go in the query or not.
  unfoldable pub fetch_of : Text → String → Exchange → Dict String Text → Bool → Fetch
  fetch_of query method s headers in_query = record {
    query = query;
    method = if in_query then (if method == "POST" then "GET" else method) else method;
    headers = headers;
    body = if in_query then none else some s.request.body;
  }

  unfoldable pub request_of : Text → Text → String → Handling Fetch
  unfolding forwarded_headers backend_headers has_parameters fetch_of
  request_of query proxy method s =
      elim (backend_headers c s.request (forwarded_headers proxy s.request)) [
        | raise x ↦ (raise x, s)
        | ok headers ↦ elim (has_parameters s) [
          | raise x ↦ (raise x, s)
          | ok in_query ↦ (ok (fetch_of query method s headers in_query), s)
        ]
      ]

  unfoldable pub relay : Answer → Handling Outcome
  unfolding set_headers set_access_control_headers respond
  relay a = do
    set_headers a.headers
    set_access_control_headers c
    respond a
    pure (a.status, (if a.status == 206 then c.ended else c.answered) - c.started, a.metadata)

  unfoldable pub fetch : Fetch → Handling Answer
  fetch f s = (c.fetch f, s)

  -- the `try` of `handle_request`
  unfoldable pub attempt : String → Handling Outcome
  unfolding encode_arguments proxy_url request_of fetch relay
  attempt method = do
    query ← gets (λ s. encode_arguments c s.request)
    proxy ← proxy_url c
    f ← request_of query proxy method
    modify (λ s. record s { num_requests = suc s.num_requests })
    a ← fetch f
    relay a

  -- the `except` clauses
  unfoldable pub rescue : Error → Handling Outcome
  unfolding call
  rescue timeout_error =
      call (send_error 504 "Request timeout error") >> pure (504, c.ended - c.started, none)
  rescue gateway_error =
      call (send_error 502 "Backend request error") >> pure (502, c.ended - c.started, none)
  rescue Error.other_error = throw Error.other_error

  -- what `emit` does with the parameters; an exception of the monitor is not caught
  unfoldable pub send_report :
      Outcome → Result Error (Option (Dict String Parameter)) → Handling (Unit {0})
  unfolding report
  send_report o (raise x) s = (raise x, s)
  send_report o (ok none) s = (ok tt, s)
  send_report o (ok (some params)) s = elim (c.publish s.request (report o params)) [
    | raise x ↦ (raise x, s)
    | ok done ↦ (ok tt, record s { emitted = s.emitted ++ report o params ∷ [] })
  ]

  -- `emit`
  unfoldable pub emit : Outcome → Handling (Unit {0})
  unfolding get_monitor_params send_report
  emit o = when c.has_monitor (λ s. send_report o (get_monitor_params c s.request) s)

  -- what follows the `try`
  unfoldable pub account : Outcome → Handling (Unit {0})
  unfolding emit
  account (status, time, meta) =
      when (leb 500 status) (modify (λ s. record s { num_errors = suc s.num_errors }))
      >> emit (status, time, meta)

  -- `handle_request`
  unfoldable pub handle_request : String → Handling (Unit {0})
  unfolding attempt rescue account
  handle_request method = catch (attempt method) rescue >>= account
