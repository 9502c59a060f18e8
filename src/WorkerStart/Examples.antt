-- ===== src/WorkerStart/Examples.antt =====
-- The start of a worker on a machine without a display.
use py_qgis_server.Prelude.{◌≡◌, refl, true, false, none, [], ◌∷◌, string_eq, ok, raise}
use py_qgis_server.Prelude.Actions.Triples.{Outcome}
use py_qgis_server.WorkerStart.{
  Class, Environ, Setup, append_path, attach_observer, init_server, install_cleanup_hook,
  install_logger_hook, load_plugins, make_application, make_server, old_qgis, preload,
  set_prefix_path, setup_proxy,
}
use py_qgis_server.WorkerStart.Order.{Failed}
use py_qgis_server.WorkerStart.Starts.{Started, init_server-Outcome}

-- The section of the API asks for another project cache.
abbrev setup : Setup
setup = record {
  debug_logs = false;
  qgis_info = false;
  trust_layer_metadata = true;
  disable_getprint = false;
  check_interval = 0;
  has_observers = true;
  advanced_report = false;
  management = false;
  endpoints = ("catalog", "/catalog") ∷ [];
  config = ("api:catalog", ("QGIS_SERVER_PROJECT_CACHE_STRATEGY", "periodic") ∷ []) ∷ [];
  section_of = λ name. "api:catalog";
  interpolate = λ c s v. ok v;
  now = 5;
  qgis_version = 33400;
  fails = λ step. none;
}

abbrev class : Class
class = record {
  qgis_server = false;
  cache_service = false;
  cache_check_interval = 0;
  cache_last_check = 0;
  advanced_report = false;
  default_project_location = none;
  environ = [];
  events = [];
}

init_server-Outcome_example :
    Outcome
      (λ t d. Started setup d × (init_server setup d ≡ (ok tt, d)))
      (Failed setup)
      (init_server setup class)
init_server-Outcome_example = init_server-Outcome setup class refl refl

abbrev environ : Environ
environ =
    ("QGIS_SERVER_TRUST_LAYER_METADATA", "yes")
    ∷ ("QGIS_SERVER_PROJECT_CACHE_STRATEGY", "off")
    ∷ ("QGIS_NO_OVERRIDE_IMPORT", "1")
    ∷ ("QGIS_DISABLE_MESSAGE_HOOKS", "1")
    ∷ ("QT_QPA_PLATFORM", "offscreen")
    ∷ ("QGIS_PREFIX_PATH", "/usr")
    ∷ []

init_server_events :
    (init_server setup class).1.events
    ≡ attach_observer
      ∷ append_path "/usr/share/qgis/python/plugins/"
      ∷ make_application environ
      ∷ set_prefix_path "/usr"
      ∷ install_cleanup_hook
      ∷ install_logger_hook
      ∷ make_server
      ∷ setup_proxy
      ∷ load_plugins
      ∷ preload
      ∷ []
unfolding init_server
init_server_events = refl

-- An old QGIS ends the start before the application is made.
init_server_old : (init_server (record setup { qgis_version = 32200 }) class).0 ≡ raise old_qgis
unfolding init_server
init_server_old = refl
