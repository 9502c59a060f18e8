-- ===== src/Settings/Examples.antt =====
-- A server with a variable of the environment, a file and arguments.
use py_qgis_server.Prelude.{
  String, ◌≡◌, ◌⊎◌, refl, true, false, Option, none, some, List, [], ◌∷◌, All, inl, map, string_eq,
  ◌==◌, if◌then◌else◌, ok,
}
use py_qgis_server.Components.Config.{Config, find_option, get_option}
use py_qgis_server.Dict.{get}
use py_qgis_server.Settings.Defaults.{Command, commands, option, section}
use py_qgis_server.Settings.CommandLine.{Args, Launch, World, main, read_configuration}
use py_qgis_server.Settings.CommandLine.Precedence.{configured}
use py_qgis_server.Settings.CommandLine.Starting.{Checked, main-Checked}
use py_qgis_server.Settings.Loading.{IsValid}
use py_qgis_server.Settings.Lookup.{setting}
use py_qgis_server.Text.{pos}

abbrev pub world : World
world = record {
  environ = λ name. if name == "QGSRV_SERVER_INTERFACES" then some "localhost" else none;
  option_variable = λ s o. none;
  valid = λ v. true;
  interpolate = λ c s v. ok v;
  to_int = λ v. if v == "80" then ok (pos 80) else ok (pos 2);
  known_level = λ v. true;
  paths = record {
    normpath = λ v. if v == "/srv/" then "/srv" else v;
    isdir = λ v. true;
    isabs = λ v. true;
    valid = λ v. true;
  };
}

abbrev pub file : Config
file = ("server", ("port", "8888") ∷ ("timeout", "7") ∷ []) ∷ []

abbrev pub args : Args
args = record {
  debug = false;
  version = false;
  proxy = false;
  config = some (ok file);
  port = some "80";
  interfaces = none;
  workers = none;
  rootdir = some "/srv/";
  setuid = "";
}

pub All-IsValid :
    (environ : String → Option String) (cs : List Command) → All (IsValid (λ v. true) environ) cs
All-IsValid environ [] = tt
All-IsValid environ (section name ∷ cs) = (tt, All-IsValid environ cs)
All-IsValid environ (option name key source ∷ cs) = (refl, All-IsValid environ cs)

abbrev launch : Launch
launch = record { port = some (pos 80); interfaces = some "localhost"; workers = some (pos 2) }

main-Checked_example :
    ((args.proxy ≡ true) × (launch.workers ≡ some (pos 0)))
    ⊎ ((raw u : String) × (args.proxy ≡ false)
        × (configured world file args "projects.cache" "rootdir" ≡ some raw)
        × (world.interpolate (read_configuration world args []).1 "projects.cache" raw ≡ ok u)
        × Checked world.paths "projects.cache" "rootdir" u (ok tt, (main world args []).1)
        × ((read_configuration world args []).0 ≡ ok launch))
unfolding get main
main-Checked_example =
    main-Checked world args file (All-IsValid world.environ commands, refl, tt, refl, tt, refl)
      (((refl, tt), ((refl, (refl, tt)), tt)), inl refl) [] (main world args []).1 launch refl refl
      refl

main-launch : (main world args []).0 ≡ ok launch
unfolding main
main-launch = refl

-- The argument comes before the file, the file before the default, and the environment before that.
main_options :
    map
      (λ (e : String × String). find_option e.0 e.1 (main world args []).1)
      (("server", "port") ∷ ("server", "timeout") ∷ ("server", "interfaces") ∷ [])
    ≡ some "80" ∷ some "7" ∷ some "localhost" ∷ []
unfolding find_option main
main_options = refl

-- The directory in its normal form.
main_rootdir : find_option "projects.cache" "rootdir" (main world args []).1 ≡ some "/srv"
unfolding find_option main
main_rootdir = refl

-- No variable sets the key that the management server reads.
configured_ssl_key :
    (environ : String → Option String) → setting environ "management" "ssl_key" commands none ≡ none
configured_ssl_key environ = refl

-- The section DEFAULT of a file shows in the others.
abbrev general : Config
general = ("DEFAULT", ("jpeg_quality", "90") ∷ []) ∷ file

read_default :
    get_option "server" "jpeg_quality"
      (main world (record args { config = some (ok general) }) []).1
    ≡ some "90"
unfolding get_option main
read_default = refl
