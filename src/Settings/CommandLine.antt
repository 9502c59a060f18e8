-- ===== src/Settings/CommandLine.antt =====
-- The command line (src/pyqgisserver/server.py): a configuration from the environment, a file and the
-- arguments, and the start of the server.
pub mod Effects
pub mod Precedence
pub mod Launching
pub mod Starting
use py_qgis_server.Prelude.{
  String, Bool, true, false, Option, none, some, [], if◌then◌else◌, Result, ok, raise,
}
use py_qgis_server.Prelude.Actions.{Action, gets, modify, pure, throw, maybe, when, ◌>>=◌, ◌>>◌}
use py_qgis_server.Components.Config.{
  Config, Error, Interpolation, Paths, attribute_error, get_option, get_impl, system_exit,
  validate_config_path,
}
use py_qgis_server.Settings.{load_configuration, read_file, set_value}
use py_qgis_server.Text.{ℤ, pos}

-- The arguments; `config` is what the parser makes of the file, and a port and a number of workers are
-- texts again.
pub record Args : Type 0 where
  pub debug : Bool
  pub version : Bool
  pub proxy : Bool
  pub config : Option (Result Error Config)
  pub port : Option String
  pub interfaces : Option String
  pub workers : Option String
  pub rootdir : Option String
  pub setuid : String

-- The environment, the parser and the file system. `option_variable` is the value of the variable that
-- stands for an option.
pub record World : Type 0 where
  pub environ : String → Option String
  pub option_variable : String → String → Option String
  pub valid : String → Bool
  pub interpolate : Interpolation
  pub to_int : String → Result Error ℤ
  pub known_level : String → Bool
  pub paths : Paths

-- What `read_configuration` adds to the arguments, and `run_server` is called with.
pub record Launch : Type 0 where
  pub port : Option ℤ
  pub interfaces : Option String
  pub workers : Option ℤ

-- `with open(args.config)`, and the reading of the file
unfoldable pub read_config : Option (Result Error Config) → Action Error Config (Unit {0})
unfolding read_file
read_config none = pure tt
read_config (some (raise x)) = throw x
read_config (some (ok file)) = modify (λ config. read_file config file)

module _ (w : World) where
  -- `set_arg`
  unfoldable pub set_arg : String → String → Option String → Action Error Config (Unit {0})
  unfolding set_value
  set_arg section name value = maybe value (pure tt) (set_value w.valid section name)

  -- `read_configuration` up to the override by `--debug`
  unfoldable pub configure : Args → Action Error Config (Unit {0})
  unfolding load_configuration read_config set_arg
  configure args = do
    when args.version (throw system_exit)
    load_configuration w.valid w.environ
    read_config args.config
    set_arg "projects.cache" "rootdir" args.rootdir
    set_arg "server" "interfaces" args.interfaces
    set_arg "server" "port" args.port
    set_arg "server" "workers" args.workers
    when args.debug (set_value w.valid "logging" "level" "DEBUG")

  -- `confservice.get('logging', 'level')`
  unfoldable pub get_level : Action Error Config String
  unfolding get_impl
  get_level config =
      get_impl (w.interpolate config "logging") true w.valid w.option_variable "logging" "level"
        none config

  -- `setup_log_handler`, which looks the level up by its name
  unfoldable pub setup_log_handler : String → Action Error Config (Unit {0})
  setup_log_handler level = if w.known_level level then pure tt else throw (attribute_error level)

  -- `conf.get(option)` of the section `server`, and `conf.getint(option)`
  unfoldable pub server_option : String → Action Error Config (Option String)
  unfolding get_option
  server_option name config = elim (get_option "server" name config) [
    | none ↦ (ok none, config)
    | some v ↦ elim (w.interpolate config "server" v) [
      | raise x ↦ (raise x, config)
      | ok text ↦ (ok (some text), config)
    ]
  ]

  unfoldable pub to_number : Option String → Action Error Config (Option ℤ)
  to_number none config = (ok none, config)
  to_number (some text) config = elim (w.to_int text) [
    | raise x ↦ (raise x, config)
    | ok n ↦ (ok (some n), config)
  ]

  -- The handler of the logs, and then the options of the section `server`.
  unfoldable pub read_server : String → Action Error Config Launch
  unfolding setup_log_handler server_option to_number
  read_server level = do
    setup_log_handler level
    port_text ← server_option "port"
    port ← to_number port_text
    workers_text ← server_option "workers"
    workers ← to_number workers_text
    interfaces ← server_option "interfaces"
    pure (record { port = port; interfaces = interfaces; workers = workers })

  unfoldable pub read_options : Action Error Config Launch
  unfolding get_level read_server
  read_options = get_level >>= read_server

  -- `read_configuration`
  unfoldable pub read_configuration : Args → Action Error Config Launch
  unfolding configure read_options
  read_configuration args = configure args >> read_options

  -- A proxy has no workers, and other servers need a directory of projects.
  unfoldable pub check_role : Args → Launch → Action Error Config Launch
  unfolding validate_config_path
  check_role args l =
      if args.proxy
      then pure (record l { workers = some (pos 0) })
      else validate_config_path w.paths w.interpolate "projects.cache" "rootdir" false >> pure l

  -- `main`, up to `run_server`
  unfoldable pub main : Args → Action Error Config Launch
  unfolding read_configuration check_role
  main args = read_configuration args >>= check_role args
