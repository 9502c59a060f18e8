-- ===== src/Delivery/Examples.antt =====
-- An answer in three parts, read among the messages of another request.
use py_qgis_server.Prelude.{refl, true, false, none, some, List, [], ◌∷◌, ◌++◌, string_eq, ok}
use py_qgis_server.Client
use py_qgis_server.Client.{Handlers, Message}
use py_qgis_server.Delivery.{fetched, watch}
use py_qgis_server.Delivery.Served.{Served, handle_request-Served}
use py_qgis_server.Dict.{get}
use py_qgis_server.Http.{emit, handle_request}
use py_qgis_server.Http.Calls.{Exchange, Request}
use py_qgis_server.Http.Services.{Context, plain}
use py_qgis_server.Messages.{Content, chunk, raw, reply}
use py_qgis_server.Stream.{concat, messages}

abbrev table : Handlers
table = ("a", Client.init) ∷ ("b", Client.init) ∷ []

abbrev read : List Message
read =
    record { correlation_id = "a"; payload = reply 206 [] (1 ∷ []) none; rest = [] }
    ∷ record { correlation_id = "b"; payload = raw "ERR"; rest = raw "509" ∷ [] }
    ∷ record { correlation_id = "a"; payload = chunk (2 ∷ []) true none; rest = [] }
    ∷ record { correlation_id = "a"; payload = chunk (3 ∷ []) true none; rest = [] }
    ∷ record { correlation_id = "a"; payload = chunk [] false none; rest = [] }
    ∷ []

abbrev parts : List Content
parts = (1 ∷ []) ∷ (2 ∷ []) ∷ []

abbrev request : Request
request = record {
  headers = [];
  arguments = [];
  body_arguments = [];
  body = [];
  uri = 47 ∷ [];
  path = 47 ∷ [];
  protocol = 104 ∷ [];
  host = 104 ∷ [];
}

abbrev context : Context
context = record {
  service = plain;
  cross_origin = false;
  http_proxy = false;
  proxy_setting = [];
  allowed_hdrs = [];
  debug_request_id = none;
  has_monitor = false;
  upper_name = λ k. k;
  get_argument = λ r k. ok none;
  decode = some;
  publish = λ r p. ok tt;
  urlencode = λ d. [];
  fetch = λ f. fetched (λ v. []) (watch "a" read table Client.init);
  started = 1;
  answered = 2;
  ended = 5;
}

abbrev exchange : Exchange
exchange = record {
  request = request;
  has_body_arguments = false;
  calls = [];
  num_requests = 3;
  num_errors = 0;
  emitted = [];
}

handle_request-Served_example :
    Served exchange (handle_request context "GET" exchange) (concat parts ++ 3 ∷ [])
unfolding get messages
handle_request-Served_example =
    handle_request-Served (λ v. []) [] none [] parts (3 ∷ []) "a" read table context "GET" exchange
      refl refl (λ f. refl) refl (λ r k. (none, refl)) (λ o t. unfold emit in refl)
