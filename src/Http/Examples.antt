-- ===== src/Http/Examples.antt =====
-- A WFS request that asks for too many features, and its answer in parts.
use py_qgis_server.Prelude.{
  String, true, false, none, some, [], ◌∷◌, map, ◌≡◌, refl, string_eq, ◌==◌, if◌then◌else◌, ok,
  raise, arith,
}
use py_qgis_server.Dict
use py_qgis_server.Dict.{Dict}
use py_qgis_server.Http.{handle_request}
use py_qgis_server.Http.Calls.{Answer, Error, Exchange, Request, timeout_error}
use py_qgis_server.Http.Headers.{backend_headers}
use py_qgis_server.Http.Proxy.{forwarded_request}
use py_qgis_server.Http.Relay.{Handled, expected, handle_request-Handled}
use py_qgis_server.Http.Services.{
  Context, asked, fix_getfeature, getfeature, get_text, is_getfeature, ows, prepare, wfs,
}
use py_qgis_server.Http.Services.Limits.{Bounded, fix_getfeature-Bounded}
use py_qgis_server.Http.Views.{fresh, view}
use py_qgis_server.Text.{Text, starts_with}

abbrev request : Request
request = record {
  headers = ("Origin", 111 ∷ []) ∷ ("X-Qgis-Forwarded-Url", 120 ∷ []) ∷ [];
  arguments = ("map", (97 ∷ []) ∷ []) ∷ ("SERVICE", wfs ∷ []) ∷ [];
  body_arguments = [];
  body = [];
  uri = 47 ∷ [];
  path = 47 ∷ [];
  protocol = 104 ∷ [];
  host = 104 ∷ [];
}

abbrev answer : Answer
answer = record {
  status = 206;
  headers = ("Content-Type", 116 ∷ []) ∷ [];
  body = 1 ∷ [];
  metadata = none;
  chunks = (2 ∷ []) ∷ ((3 ∷ []) ∷ []);
  ending = some timeout_error;
}

abbrev context : Context
context = record {
  service = ows 100;
  cross_origin = false;
  http_proxy = false;
  proxy_setting = [];
  allowed_hdrs = "X-QGIS-" ∷ [];
  debug_request_id = none;
  has_monitor = true;
  upper_name = λ k.
      if k == "map"
      then "MAP"
      else if k == "X-Qgis-Forwarded-Url"
      then "X-QGIS-FORWARDED-URL"
      else k;
  get_argument = λ r k. ok none;
  decode = some;
  publish = λ r p. ok tt;
  urlencode = λ d. [];
  fetch = λ f. ok answer;
  started = 1;
  answered = 2;
  ended = 5;
}

abbrev exchange : Exchange
exchange = record {
  request = request;
  has_body_arguments = false;
  calls = [];
  num_requests = 3;
  num_errors = 0;
  emitted = [];
}

handle_request-Handled_example :
    Handled context exchange (handle_request context "GET" exchange) (expected (ok answer))
handle_request-Handled_example =
    handle_request-Handled context "GET" exchange (ok answer) refl (λ r k. (none, refl)) (λ f. refl)

abbrev arguments : Dict String Text
arguments =
    ("SERVICE", 119 ∷ 102 ∷ 115 ∷ [])
    ∷ (("REQUEST", getfeature)
        ∷ (("VERSION", 50 ∷ 46 ∷ 48 ∷ []) ∷ (("COUNT", 57 ∷ 57 ∷ 57 ∷ []) ∷ [])))

fix_getfeature-Bounded_example :
    Bounded 100
      (asked (Dict.get "COUNT" arguments))
      (Dict.get "COUNT" (fix_getfeature 100 arguments))
    × (Dict.remove "COUNT" (fix_getfeature 100 arguments) ≡ Dict.remove "COUNT" arguments)
unfolding is_getfeature get_text starts_with
fix_getfeature-Bounded_example = fix_getfeature-Bounded 100 arguments true (omega arith) refl refl

fix_getfeature_limit : Dict.get "COUNT" (fix_getfeature 100 arguments) ≡ some (49 ∷ 48 ∷ 48 ∷ [])
unfolding fix_getfeature Dict.get
fix_getfeature_limit = refl

-- The time-out after the first parts is counted and reported, and the client sees status 200.
handle_request_cut : (handle_request context "GET" exchange).1.num_errors ≡ 1
unfolding handle_request
handle_request_cut = refl

handle_request_seen :
    view fresh (handle_request context "GET" exchange).1.calls
    ≡ record { status = 200; body = 1 ∷ 2 ∷ 3 ∷ []; started = true }
unfolding handle_request
handle_request_seen = refl

handle_request_report :
    map (λ r. r.response_status) (handle_request context "GET" exchange).1.emitted ≡ 504 ∷ []
unfolding handle_request
handle_request_report = refl

-- The header of the client takes the place of the URL that the handler found.
backend_headers_override :
    (elim (backend_headers context request (("X-Qgis-Forwarded-Url", 104 ∷ []) ∷ [])) [
      | raise x ↦ none
      | ok d ↦ Dict.get "X-Qgis-Forwarded-Url" d
    ])
    ≡ some (120 ∷ [])
unfolding backend_headers
backend_headers_override = refl

-- "a=b; host=h" does not give a host, for the blank, and "host=h" does.
forwarded_request_blank :
    (forwarded_request (record request {
      headers = ("Forwarded", 97 ∷ 61 ∷ 98 ∷ 59 ∷ 32 ∷ 104 ∷ 111 ∷ 115 ∷ 116 ∷ 61 ∷ 99 ∷ []) ∷ [];
    })).host
    ≡ 104 ∷ []
unfolding forwarded_request
forwarded_request_blank = refl

forwarded_request_host :
    (forwarded_request (record request {
      headers = ("Forwarded", 97 ∷ 61 ∷ 98 ∷ 59 ∷ 104 ∷ 111 ∷ 115 ∷ 116 ∷ 61 ∷ 99 ∷ []) ∷ [];
    })).host
    ≡ 99 ∷ []
unfolding forwarded_request
forwarded_request_host = refl

prepare_upper :
    map (λ e. e.0) (prepare context exchange).request.arguments ≡ "MAP" ∷ ("SERVICE" ∷ [])
unfolding prepare
prepare_upper = refl

-- A monitor that fails makes the request fail, after it has been counted.
handle_request_monitor :
    (handle_request (record context { publish = λ r p. raise Error.other_error }) "GET" exchange).0
    ≡ raise Error.other_error
unfolding handle_request
handle_request_monitor = refl
