-- ===== src/Settings.antt =====
-- The settings that the server starts with (`load_configuration` of src/pyqgisserver/config.py): each
-- from a variable of the environment or else a default.
pub mod Defaults
pub mod Lookup
pub mod Loading
pub mod Files
pub mod CommandLine
pub mod Examples
use py_qgis_server.Prelude.{
  String, Bool, Option, none, some, List, [], ◌∷◌, ◌++◌, string_eq, ◌==◌, ◌&&◌, if◌then◌else◌,
  Result, ok, raise,
}
use py_qgis_server.Prelude.Actions.{Action, pure, throw, ◌>>=◌, ◌>>◌}
use py_qgis_server.Components.Config.{
  Config, Error, duplicate_section, find_option, set, value_error,
}
use py_qgis_server.Dict
use py_qgis_server.Dict.{Dict, update}
use py_qgis_server.Settings.Defaults.{
  Command, Source, alternate, commands, constant, option, section, variable,
}

unfoldable pub getenv : (String → Option String) → String → String → String
getenv environ name default = elim (environ name) [ none ↦ default | some v ↦ v ]

unfoldable pub value_of : (String → Option String) → Source → String
unfolding getenv
value_of environ (constant v) = v
value_of environ (variable name default) = getenv environ name default
value_of environ (alternate name1 name2 default) =
    getenv environ name1 (getenv environ name2 default)

-- A section that is there raises `DuplicateSectionError`.
unfoldable pub new_section : String → Action Error Config (Unit {0})
unfolding Dict.get Dict.put
new_section name config = elim (Dict.get name config) [
  | none ↦ (ok tt, Dict.put name [] config)
  | some options ↦ (raise (duplicate_section name), config)
]

-- `CONFIG.clear`, which leaves only the section DEFAULT
unfoldable pub clear : Config → Config
unfolding Dict.get
clear config = elim (Dict.get "DEFAULT" config) [
  | none ↦ []
  | some defaults ↦ ("DEFAULT", defaults) ∷ []
]

module _ (valid : String → Bool) where
  -- `CONFIG.set`; `valid` is the parser's test for references in a value, which raises `ValueError`.
  unfoldable pub set_value : String → String → String → Action Error Config (Unit {0})
  unfolding set
  set_value name key v = if valid v then set name key v else throw value_error

module _ (valid : String → Bool) (environ : String → Option String) where
  unfoldable pub apply : Command → Action Error Config (Unit {0})
  unfolding new_section set_value value_of
  apply (section name) = new_section name
  apply (option name key source) = set_value valid name key (value_of environ source)

  unfoldable pub run : List Command → Action Error Config (Unit {0})
  unfolding apply
  run [] = pure tt
  run (c ∷ cs) = apply c >> run cs

  -- `load_configuration`
  unfoldable pub load_configuration : Action Error Config (Unit {0})
  unfolding run clear
  load_configuration config = run commands (clear config)

-- `CONFIG.read_file`: what the parser makes of a file is added, section by section.
unfoldable pub read_file : Config → Config → Config
unfolding Dict.get Dict.put update
read_file config [] = config
read_file config ((name, options) ∷ rest) =
    read_file
      (Dict.put name (update (elim (Dict.get name config) [ none ↦ [] | some old ↦ old ]) options)
        config)
      rest
