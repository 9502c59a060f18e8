-- ===== src/WorkerStart.antt =====
-- The start of a worker: `QgsRequestHandler.init_server` (src/pyqgisserver/qgsworker.py) and the start of
-- QGIS (src/pyqgisserver/utils/qgis.py).
pub mod Order
pub mod Options
pub mod Application
pub mod Starts
mod Examples
use py_qgis_server.Prelude.{
  ℕ, String, Bool, true, false, ◌||◌, Option, none, some, List, [], ◌∷◌, ◌++◌, string_eq, ltb, leb,
  if◌then◌else◌, Result, ok, raise,
}
use py_qgis_server.Prelude.Actions.{Action, gets, modify, pure, throw, maybe, when, ◌>>=◌, ◌>>◌}
use py_qgis_server.Components.Config.{
  Config, Error as ConfigError, Interpolation, configure_qgis_api, qgis_api_endpoints,
}
use py_qgis_server.Dict
use py_qgis_server.Dict.{Dict}

-- The environment of the process.
abbrev pub Environ : Type 0
Environ = Dict String String

-- `RuntimeError` of an old QGIS, and any other exception.
pub data Error : Type 0 where
  old_qgis other_error : Error

-- What is done outside of this program, in order; the application reads the environment when it is
-- made.
pub data Event : Type 0 where
  append_path : String → Event
  make_application : Environ → Event
  set_prefix_path : String → Event
  install_cleanup_hook show_settings install_logger_hook init_processing : Event
  make_server setup_proxy load_plugins register_management preload attach_observer : Event

-- What may raise.
pub data Step : Type 0 where
  get_service make_the_application make_the_server start_plugins start_management preload_all : Step

-- The class of the handlers; `cache_service` says whether it has a cache manager, and
-- `advanced_report` whether it reports on the memory of its process.
pub record Class : Type 0 where
  pub qgis_server : Bool
  pub cache_service : Bool
  pub cache_check_interval : ℕ
  pub cache_last_check : ℕ
  pub advanced_report : Bool
  pub default_project_location : Option String
  pub environ : Environ
  pub events : List Event

abbrev pub Starting : Type 0 → Type 0
Starting A = Action Error Class A

-- The configuration, with the APIs that the parser gives for `api.endpoints`, the clock and QGIS. A check interval that is not positive is 0.
pub record Setup : Type 0 where
  pub debug_logs : Bool
  pub qgis_info : Bool
  pub trust_layer_metadata : Bool
  pub disable_getprint : Bool
  pub check_interval : ℕ
  pub has_observers : Bool
  pub advanced_report : Bool
  pub management : Bool
  pub endpoints : Dict String String
  pub config : Config
  pub section_of : String → String
  pub interpolate : Interpolation
  pub now : ℕ
  pub qgis_version : ℕ
  pub fails : Step → Option Error

unfoldable pub set_environ : String → String → Starting (Unit {0})
unfolding Dict.put
set_environ name v = modify (λ s. record s { environ = Dict.put name v s.environ })

unfoldable pub record_event : Event → Starting (Unit {0})
record_event e = modify (λ s. record s { events = s.events ++ e ∷ [] })

unfoldable pub get_environ : String → Starting (Option String)
unfolding Dict.get
get_environ name = gets (λ s. Dict.get name s.environ)

-- `os.environ.get(name, default)`
unfoldable pub environ_or : String → String → Starting String
unfolding get_environ
environ_or name default = get_environ name >>= (λ o. maybe o (pure default) pure)

-- `configure_qgis_api` for each API, enabled or not
unfoldable pub configure_apis : Setup → Dict String String → Action ConfigError Environ (Unit {0})
unfolding configure_qgis_api
configure_apis u [] environ = (ok tt, environ)
configure_apis u ((name, endpoint) ∷ rest) environ =
    (configure_qgis_api u.interpolate u.section_of name u.config >> configure_apis u rest) environ

-- What is done to the environment, in the start.
unfoldable pub on_environ :
    Result ConfigError (Unit {0}) × Environ → Class → Result Error (Unit {0}) × Class
on_environ (ok t, env) s = (ok t, record s { environ = env })
on_environ (raise x, env) s = (raise other_error, record s { environ = env })

module _ (u : Setup) where
  unfoldable pub attempt : Step → Starting (Unit {0})
  attempt step = maybe (u.fails step) (pure tt) throw

  -- `start_qgis_application` up to the test of the version
  unfoldable pub check_version : Starting (Unit {0})
  unfolding set_environ environ_or record_event
  check_version = do
    set_environ "QGIS_NO_OVERRIDE_IMPORT" "1"
    set_environ "QGIS_DISABLE_MESSAGE_HOOKS" "1"
    path ← environ_or "QGIS3_PLUGINPATH" "/usr/share/qgis/python/plugins/"
    record_event (append_path path)
    when (ltb u.qgis_version 32800) (throw old_qgis)

  -- the platform, so that Qt does not look for a display that is not there
  unfoldable pub choose_platform : Starting (Unit {0})
  unfolding set_environ get_environ
  choose_platform =
      get_environ "DISPLAY"
      >>= (λ display. maybe display (set_environ "QT_QPA_PLATFORM" "offscreen") (λ d. pure tt))

  unfoldable pub create_application : Starting (Unit {0})
  unfolding set_environ environ_or record_event attempt
  create_application = do
    prefix ← environ_or "QGIS3_HOME" "/usr"
    set_environ "QGIS_PREFIX_PATH" prefix
    attempt make_the_application
    environ ← gets (λ s. s.environ)
    record_event (make_application environ)
    record_event (set_prefix_path prefix)

  -- `start_qgis_application`
  unfoldable pub start_qgis_application : Bool → Bool → Bool → Starting (Unit {0})
  unfolding check_version choose_platform create_application record_event
  start_qgis_application enable_processing verbose cleanup = do
    check_version
    choose_platform
    create_application
    when cleanup (record_event install_cleanup_hook)
    when verbose (record_event show_settings)
    record_event install_logger_hook
    when enable_processing (record_event init_processing)

  -- `init_qgis_server`
  unfoldable pub init_qgis_server : Bool → Starting (Unit {0})
  unfolding start_qgis_application attempt record_event
  init_qgis_server verbose = do
    start_qgis_application false verbose true
    attempt make_the_server
    record_event make_server
    record_event setup_proxy

  -- the environment that QGIS reads its options from
  unfoldable pub set_options : Starting (Unit {0})
  unfolding set_environ
  set_options = do
    when (u.debug_logs || u.qgis_info)
        (set_environ "QGIS_SERVER_LOG_LEVEL" "0" >> set_environ "QGIS_DEBUG" "1")
    when u.trust_layer_metadata (set_environ "QGIS_SERVER_TRUST_LAYER_METADATA" "yes")
    when u.disable_getprint (set_environ "QGIS_SERVER_DISABLE_GETPRINT" "yes")

  -- the cache, its reports and its observer
  unfoldable pub set_cache : Starting (Unit {0})
  unfolding attempt record_event
  set_cache = do
    attempt get_service
    modify (λ s. record s {
      cache_service = true;
      cache_check_interval = u.check_interval;
      cache_last_check = u.now;
    })
    when u.advanced_report (modify (λ s. record s { advanced_report = true }))
    when u.has_observers (record_event attach_observer)

  unfoldable pub set_apis : Starting (Unit {0})
  unfolding on_environ configure_apis set_environ qgis_api_endpoints
  set_apis =
      (λ s.
        on_environ
          (configure_apis u (qgis_api_endpoints false (λ name. true) u.endpoints) s.environ) s)
      >> set_environ "QGIS_SERVER_PROJECT_CACHE_STRATEGY" "off"

  -- what uses the server, and at last the mark that it is there
  unfoldable pub finish_start : Starting (Unit {0})
  unfolding attempt record_event get_environ
  finish_start = do
    attempt start_plugins
    record_event load_plugins
    when u.management (attempt start_management >> record_event register_management)
    location ← get_environ "QGIS_PROJECT_FILE"
    modify (λ s. record s { default_project_location = location })
    attempt preload_all
    record_event preload
    modify (λ s. record s { qgis_server = true })

  -- `init_server`
  unfoldable pub init_server : Starting (Unit {0})
  unfolding set_options set_cache set_apis init_qgis_server finish_start
  init_server = gets (λ s. s.qgis_server) >>= (λ there.
      if there
      then pure tt
      else set_options
        >> (set_cache
            >> (set_apis >> (init_qgis_server (u.debug_logs || u.qgis_info) >> finish_start))))
