-- ===== src/Components/Config.antt =====
-- `ConfigService` (src/pyqgisserver/config.py): a value of the configuration, of the environment, or
-- the fallback. Names are in the form that the parser gives them.
use py_qgis_server.Prelude.{
  String, Bool, ◌&&◌, Option, none, some, List, [], ◌∷◌, ◌++◌, map, string_eq, ◌==◌, if◌then◌else◌,
  Result, ok, raise,
}
use py_qgis_server.Prelude.Actions.{Action, pure, throw, maybe, ◌>>=◌, ◌>>◌}
use py_qgis_server.Dict
use py_qgis_server.Dict.{Dict}

-- `NoSectionError`, `DuplicateSectionError`, `KeyError`, the `ValueError` of a conversion, the
-- `AttributeError` of a log level, and `SystemExit`.
pub data Error : Type 0 where
  no_section : String → Error
  duplicate_section : String → Error
  attribute_error : String → Error
  system_exit : Error
  key_error : String → String → Error
  value_error : Error

abbrev pub Config : Type 0
Config = Dict String (Dict String String)

-- `CONFIG.set`
unfoldable pub set : String → String → String → Action Error Config (Unit {0})
unfolding Dict.get Dict.put
set section option value config = elim (Dict.get section config) [
  | none ↦ (raise (no_section section), config)
  | some options ↦ (ok tt, Dict.put section (Dict.put option value options) config)
]

-- What the parser makes of the references in a value of a section; it may raise.
abbrev pub Interpolation : Type 0
Interpolation = Config → String → String → Result Error String

-- `add_section`, where a section that is there already stays
unfoldable pub add_section : String → Config → Config
unfolding Dict.get Dict.put
add_section section config = elim (Dict.get section config) [
  | none ↦ Dict.put section [] config
  | some options ↦ config
]

-- The text of an option that the section has itself, if both are there.
unfoldable pub find_option : String → String → Config → Option String
unfolding Dict.get
find_option section option config = elim (Dict.get section config) [
  | none ↦ none
  | some options ↦ Dict.get option options
]

-- The option of the section, or else that of the section DEFAULT, which shows in every section.
unfoldable pub get_option : String → String → Config → Option String
unfolding Dict.get find_option
get_option section option config = elim (Dict.get section config) [
  | none ↦ none
  | some options ↦ elim (Dict.get option options) [
    | some text ↦ some text
    | none ↦ find_option "DEFAULT" option config
  ]
]

-- `qgis_api_endpoints`, where `getboolean` reads whether one is enabled
unfoldable pub qgis_api_endpoints : Bool → (String → Bool) → Dict String String → Dict String String
qgis_api_endpoints enabled_only enabled [] = []
qgis_api_endpoints enabled_only enabled ((name, endpoint) ∷ rest) =
    let others = qgis_api_endpoints enabled_only enabled rest in
    if enabled_only
    then (if enabled name then (name, endpoint) ∷ others else others)
    else (name, endpoint) ∷ others

module _ {A : Type 0} (convert : String → Result Error A) where
  -- `_get_fun(section, option, fallback=fallback)`, for the conversion of the option's type; `none`
  -- is `NO_DEFAULT`
  unfoldable pub get_value : String → String → Option A → Action Error Config (Option A)
  unfolding get_option
  get_value section option fallback config = elim (get_option section option config) [
    | none ↦ (ok fallback, config)
    | some text ↦ elim (convert text) [
      | raise x ↦ (raise x, config)
      | ok value ↦ (ok (some value), config)
    ]
  ]

  -- A value that is not configured: of the environment, which is kept if it passes the parser's test,
  -- or the fallback.
  unfoldable pub get_environment :
      (String → Bool)
      → (String → String → Option String)
      → String
      → String
      → Option A
      → Action Error Config (Option A)
  unfolding set get_value
  get_environment valid getenv section option fallback =
      maybe (getenv section option) (pure tt)
        (λ v. if valid v then set section option v else throw value_error)
      >> get_value section option fallback

  -- `__get_impl`; `getenv` gives the variable that stands for a section and an option
  unfoldable pub get_impl :
      Bool
      → (String → Bool)
      → (String → String → Option String)
      → String
      → String
      → Option A
      → Action Error Config A
  unfolding get_value get_environment
  get_impl allow_env valid getenv section option fallback =
      get_value section option none
      >>= (λ found.
          maybe found
            (if allow_env
              then get_environment valid getenv section option fallback
              else pure fallback)
            (λ value. pure (some value)))
      >>= (λ value. maybe value (throw (key_error section option)) pure)

-- What the checks of paths use of the library, and the parser's test of a value that is set.
pub record Paths : Type 0 where
  pub normpath : String → String
  pub isdir : String → Bool
  pub isabs : String → Bool
  pub valid : String → Bool

-- The rest of the check: the path is put in its normal form.
unfoldable pub set_path : Paths → String → String → String → Action Error Config (Unit {0})
unfolding set
set_path p section option value =
    if p.isdir (p.normpath value) && (p.isabs (p.normpath value) && p.valid (p.normpath value))
    then set section option (p.normpath value)
    else throw value_error

-- `validate_config_path`, of the value without its references; a missing section is a `KeyError`
unfoldable pub validate_config_path :
    Paths → Interpolation → String → String → Bool → Action Error Config (Unit {0})
unfolding set_path get_option Dict.get
validate_config_path p interpolate section option optional config = elim (Dict.get section config) [
  | none ↦ (raise (key_error section option), config)
  | some options ↦ elim (get_option section option config) [
    | none ↦ (if optional then pure tt else set_path p section option "") config
    | some raw ↦ elim (interpolate config section raw) [
      | raise x ↦ (raise x, config)
      | ok value ↦
          (if value == "" && optional then pure tt else set_path p section option value) config
    ]
  ]
]

-- The names of the options of a section with those of DEFAULT, each once.
unfoldable pub option_names : Dict String String → Config → List String
unfolding Dict.get
option_names options config =
    map (λ e. e.0) options
    ++ elim (Dict.get "DEFAULT" config) [ none ↦ [] | some defaults ↦ inherited defaults ]
  where
    inherited : Dict String String → List String
    inherited [] = []
    inherited ((k, v) ∷ rest) = elim (Dict.get k options) [
      | none ↦ k ∷ inherited rest
      | some own ↦ inherited rest
    ]

-- `os.environ[k] = v` for each option of a section; what was set before an exception stays set.
unfoldable pub set_variables :
    Interpolation → Config → String → List String → Action Error (Dict String String) (Unit {0})
unfolding get_option Dict.put
set_variables interpolate config section [] environment = (ok tt, environment)
set_variables interpolate config section (k ∷ ks) environment = elim (get_option section k config) [
  | none ↦ (raise (key_error section k), environment)
  | some raw ↦ elim (interpolate config section raw) [
    | raise x ↦ (raise x, environment)
    | ok v ↦ set_variables interpolate config section ks (Dict.put k v environment)
  ]
]

-- `configure_qgis_api`: the options of the section, in the environment
unfoldable pub configure_qgis_api :
    Interpolation
    → (String → String)
    → String
    → Config
    → Action Error (Dict String String) (Unit {0})
unfolding Dict.get set_variables option_names
configure_qgis_api interpolate section_of name config environment =
    elim (Dict.get (section_of name) config) [
      | none ↦ (ok tt, environment)
      | some options ↦
          set_variables interpolate config (section_of name) (option_names options config)
            environment
    ]
