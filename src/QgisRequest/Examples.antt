-- ===== src/QgisRequest/Examples.antt =====
-- Requests for projects of the sample cache, in a worker that refreshes at each request.
use py_qgis_server.Prelude.{
  String, Bool, true, false, none, some, [], ◌∷◌, string_eq, ◌==◌, ◌≡◌, refl, if◌then◌else◌,
}
use py_qgis_server.Prelude.Actions.{pure}
use py_qgis_server.Cache.{Manager, Services}
use py_qgis_server.Cache.Samples.{config, services, manager, manager-IsValid}
use py_qgis_server.Cache
use py_qgis_server.Cache.Times
use py_qgis_server.Cache.Urls
use py_qgis_server.Messages.{reply}
use py_qgis_server.QgisRequest.{always_refresh, dispatch, handle_message, handle_qgis_request}
use py_qgis_server.QgisRequest.Heads.{head_ends_worker, request_round}
use py_qgis_server.QgisRequest.Refusals.{Refused, handle_qgis_request-Refused}
use py_qgis_server.QgisRequest.Served.{Called, handle_qgis_request-Called}
use py_qgis_server.QgisRequest.State.{Context, Session}
use py_qgis_server.Response
use py_qgis_server.Supervisor.{busy, done, taken}
use py_qgis_server.Worker
use py_qgis_server.Worker.Brackets.{idle}
use py_qgis_server.Worker.Loop.{answer, exited, internal_error, notice, serve}

abbrev context : Bool → String → Context String
context head request = record {
  check_interval = 0;
  default_project_location = none;
  force_etag = true;
  trust_layer_metadata = false;
  urls = config;
  services = services;
  is_head = head;
  parameter = λ k. if k == "REQUEST" then request else "wms";
  lower = λ s. s;
  sha1 = λ s. "1";
  isoformat = λ t. "t";
  local_isoformat = λ t. "t";
  encode = λ s. [];
  file_name = λ p. p;
  last_modified = λ p. none;
  wire = λ sent p. true;
  metadata = none;
  handle_request = λ p. pure tt;
  write_exception = λ code. pure tt;
}

abbrev session : String → Session String
session etag = record {
  headers = ("X-Map-Location", "a") ∷ ("X-Ogc-Scheme", "OWS") ∷ ("If-None-Match", etag) ∷ [];
  response = Response.init Worker.init;
  cache = manager;
  cache_last_check = 0;
  removed_entries = [];
  config_path = none;
  handled = [];
}

-- QGIS gets the project, and the entry of the old one is removed.
handle_message_project :
    (handle_message (context false "GetMap") (session "")).1.handled ≡ some "/projects/a?" ∷ []
unfolding handle_message
handle_message_project = refl

handle_message_entries :
    (handle_message (context false "GetMap") (session "")).1.removed_entries ≡ "/projects/a?" ∷ []
unfolding handle_message
handle_message_entries = refl

-- A known etag: status 304, and QGIS is not called.
handle_message_etag :
    (handle_message
      (context false "getcapabilities")
      (session "\"1\"")).1.response.handler.status_code
    ≡ 304
unfolding handle_message
handle_message_etag = refl

handle_message_unchanged :
    (handle_message (context false "getcapabilities") (session "\"1\"")).1.handled ≡ []
unfolding handle_message
handle_message_unchanged = refl

handle_qgis_request-Called_example :
    Called
      (context false "GetMap")
      "a"
      (session "")
      (handle_qgis_request (context false "GetMap") (some "OWS") (some "a") none (session ""))
handle_qgis_request-Called_example =
    handle_qgis_request-Called (context false "GetMap") "a" (session "") (some "OWS") none
      manager-IsValid

handle_qgis_request-Refused_example :
    Refused
      (session "")
      Urls.Error.path_not_allowed
      (some 403)
      (handle_qgis_request (context false "GetMap") (some "OWS") (some "/etc/a") none (session ""))
handle_qgis_request-Refused_example =
    handle_qgis_request-Refused (context false "GetMap") "/etc/a" (session "") (some "OWS") none
      Urls.Error.path_not_allowed refl (λ p. refl) (unfold Cache.lookup always_refresh in refl)

head_ends_worker_example :
    serve {R = String}
      (request_round
        (context true "GetMap")
        (λ n. taken)
        (dispatch (context true "GetMap") (some "OWS") (some "/etc/a") none)
        (session ""))
      idle
    ≡ (
      exited,
      idle,
      notice busy taken ∷ (answer (reply 500 [] internal_error none) ∷ (notice done taken ∷ [])),
    )
head_ends_worker_example =
    head_ends_worker (context true "GetMap") (λ n. taken) "/etc/a" none (session "")
      Urls.Error.path_not_allowed refl (λ p. refl) (unfold Times.get_modified_time in refl)
