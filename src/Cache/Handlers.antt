-- ===== src/Cache/Handlers.antt =====
-- How projects are read: `read_project`, the check of bad layers and `QgisStorageHandler` of
-- src/pyqgisserver/qgscache/cachemanager.py, and the files of
-- src/pyqgisserver/qgscache/handlers/file_handler.py. The manager always gives a handler the URL.
use py_qgis_server.Prelude.{
  ℕ, String, Bool, true, not, ◌&&◌, ◌||◌, Option, none, some, List, [], ◌∷◌, ◌++◌, string_eq, ◌==◌,
  contains, ltb, if◌then◌else◌, Result, ok, raise, ◌>>=◌,
}
use py_qgis_server.Cache.{Details, Handler}
use py_qgis_server.Cache.Urls.{
  Error, Url, file_not_found, runtime_error, strict_checking, value_error,
}

pub data ReadFlag : Type 0 where
  trust_layer_metadata dont_load_layouts force_read_only_layers : ReadFlag

-- The options of the manager that a project is read with.
pub record Options : Type 0 where
  pub trust_layer_metadata : Bool
  pub disable_getprint : Bool
  pub read_only_layers : Bool
  pub strict_check : Bool
  pub disable_owsurls : Bool

-- What QGIS does. The reading of a project calls the handler of bad layers, each time with the
-- elements of the layers; a layer or its name may be null.
pub record Qgis (P : Type 0) : Type 0 where
  pub read : String → List ReadFlag → Option P × List (List (Option (Option String)))
  pub restricted_layers : P → List String
  pub write_entry : P → String → P

-- The names of the bad layers of one call.
unfoldable pub layer_names : List (Option (Option String)) → List String
layer_names [] = []
layer_names (none ∷ layers) = layer_names layers
layer_names (some none ∷ layers) = layer_names layers
layer_names (some (some name) ∷ layers) = name ∷ layer_names layers

-- `handleBadLayers`, for all its calls: the last one stays
unfoldable pub handle_bad_layers : List String → List (List (Option (Option String))) → List String
unfolding layer_names
handle_bad_layers names [] = names
handle_bad_layers names (layers ∷ calls) = handle_bad_layers (layer_names layers) calls

-- `a.issubset(b)`
unfoldable pub is_subset : List String → List String → Bool
is_subset [] allowed = true
is_subset (name ∷ names) allowed = contains name allowed && is_subset names allowed

unfoldable pub read_flags : Options → List ReadFlag
read_flags o =
    (if o.trust_layer_metadata then trust_layer_metadata ∷ [] else [])
    ++ ((if o.disable_getprint then dont_load_layouts ∷ [] else [])
        ++ (if o.read_only_layers then force_read_only_layers ∷ [] else []))

module _ {P : Type 0} (q : Qgis P) where
  -- `validateLayers`
  unfoldable pub validate_layers : List String → P → Bool
  unfolding is_subset
  validate_layers [] project = true
  validate_layers (name ∷ names) project = is_subset (name ∷ names) (q.restricted_layers project)

  -- `prepare_project`
  unfoldable pub prepare_project : Options → P → P
  prepare_project o project =
      if o.disable_owsurls
      then q.write_entry
          (q.write_entry (q.write_entry (q.write_entry project "WMSUrl") "WFSUrl") "WCSUrl")
          "WMTSUrl"
      else project

  unfoldable pub checked_project : Options → P → List String → Result Error P
  unfolding validate_layers prepare_project
  checked_project o project names =
      if o.strict_check && not (validate_layers names project)
      then raise strict_checking
      else ok (prepare_project o project)

  -- `read_project`
  unfoldable pub read_project : Options → String → Result Error P
  unfolding read_flags handle_bad_layers checked_project
  read_project o uri =
      let found = q.read uri (read_flags o) in
      elim found.0 [
        | none ↦ raise runtime_error
        | some project ↦ checked_project o project (handle_bad_layers [] found.1)
      ]

-- The project with the time `kept` if it is not stale, or the one that is read.
unfoldable pub renew :
    {P : Type 0}
    → (String → Result Error P)
    → String
    → ℕ
    → (Details P → Details P)
    → Option (Details P)
    → Result Error (Details P)
renew read uri modified kept none =
    read uri >>= (λ p. ok (record { project = p; timestamp = modified }))
renew read uri modified kept (some old) =
    if ltb old.timestamp modified
    then read uri >>= (λ p. ok (record { project = p; timestamp = modified }))
    else ok (kept old)

-- `QgisStorageHandler`, with the storages of QGIS: the time of a project, if it can be read.
module _ (url_text : Url → String) (storage : String → Option (String → Option ℕ)) where
  -- `get_storage_metadata`, of which the time is used
  unfoldable pub storage_time : String → Result Error ℕ
  storage_time uri = elim (storage uri) [
    | none ↦ raise file_not_found
    | some read_metadata ↦ elim (read_metadata uri) [ none ↦ raise file_not_found | some t ↦ ok t ]
  ]

  -- the handler that it is
  unfoldable pub storage_handler : {P : Type 0} → (String → Result Error P) → Handler P
  unfolding storage_time renew
  storage_handler read = record {
    get_modified_time = λ url. storage_time (url_text url);
    get_project = λ url old. storage_time (url_text url) >>= λ modified.
        renew read (url_text url) modified (λ d. record d { timestamp = modified }) old;
  }

-- What is used of `pathlib` and the file system.
pub record Files : Type 0 where
  pub is_absolute : String → Bool
  pub suffix : String → String
  pub with_suffix : String → String → String
  pub is_file : String → Bool
  pub modified : String → ℕ

module _ (f : Files) where
  -- the loop over `ALLOWED_SFX`
  unfoldable pub try_suffixes : List String → String → Option String
  try_suffixes [] path = none
  try_suffixes (sfx ∷ rest) path =
      let later = try_suffixes rest (f.with_suffix path sfx) in
      if f.is_file (f.with_suffix path sfx) then some (f.with_suffix path sfx) else later

  -- `_check_file`
  unfoldable pub check_file : String → Result Error (Option String)
  unfolding try_suffixes
  check_file path =
      if f.is_absolute path
      then (if f.suffix path == ".qgs" || f.suffix path == ".qgz"
          then ok (if f.is_file path then some path else none)
          else ok (try_suffixes (".qgs" ∷ (".qgz" ∷ [])) path))
      else raise value_error

  unfoldable pub found_file : Option String → Result Error String
  found_file none = raise file_not_found
  found_file (some path) = ok path

  -- `FileProtocolHandler`
  unfoldable pub file_handler : {P : Type 0} → (String → Result Error P) → Handler P
  unfolding check_file found_file renew
  file_handler read = record {
    get_modified_time =
        λ url. check_file url.path >>= λ o. found_file o >>= λ path. ok (f.modified path);
    get_project = λ url old. check_file url.path >>= λ o.
        found_file o >>= λ path. renew read path (f.modified path) (λ d. d) old;
  }
