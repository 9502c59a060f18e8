-- ===== src/Management/Apis.antt =====
-- The handlers that run in a worker: src/pyqgisserver/management/apis/cache.py and plugins.py. How a
-- dictionary is written is a parameter.
use py_qgis_server.Prelude.{
  String, Option, none, some, List, ◌++◌, map, false, string_eq, Result, ok, raise,
}
use py_qgis_server.Prelude.Actions.{Action, maybe, throw, ◌>>=◌}
use py_qgis_server.Cache.{Manager, Services, lookup}
use py_qgis_server.Cache.Urls
use py_qgis_server.Cache.Urls.{given}
use py_qgis_server.Dict
use py_qgis_server.Management.{Error, Handler, Handling, dict, http_error, other_error, write}
use py_qgis_server.Plugins.{Registry, plugin_list, plugin_metadata}

abbrev pub State : Type 0 → Type 0
State P = Handler × Manager P

-- An exception of the cache is one like any other here.
abbrev pub as_error : {A : Type 0} → Result Urls.Error A → Result Error A
as_error (ok a) = ok a
as_error (raise x) = raise other_error

module _ {P : Type 0} where
  abbrev pub on_handler : Handling → Action Error (State P) (Unit {0})
  on_handler f s = ((f s.0).0, ((f s.0).1, s.1))

  abbrev pub on_cache : {A : Type 0} → Action Urls.Error (Manager P) A → Action Error (State P) A
  on_cache f s = (as_error (f s.1).0, (s.0, (f s.1).1))

  -- Look up the project of a key, and write what there is to say about it.
  unfoldable pub write_project :
      Urls.Config → Services P → (String → P → String) → String → Action Error (State P) (Unit {0})
  unfolding lookup write
  write_project cnf w summary k =
      on_cache (lookup cnf w k false) >>= λ found. on_handler (write (dict (summary k found.0)))

  -- `CacheCollection.get`, of a key in the path or in the parameter MAP
  unfoldable pub get_cache :
      Urls.Config
      → Services P
      → (String → P → String)
      → Option String
      → Option String
      → Action Error (State P) (Unit {0})
  unfolding given write_project
  get_cache cnf w summary parameter key =
      maybe (given key)
        (maybe (given parameter) (throw (http_error 400 (some "Missing project specification")))
          (write_project cnf w summary))
        (write_project cnf w summary)

-- The dictionaries of `PluginCollection`, as they are written.
pub record Texts (Section : Type 0) : Type 0 where
  pub failed : String → String → String
  pub loaded : String → Section → String
  pub links : List (String × String) → String

module _ {P S : Type 0} where
  -- `PluginCollection.get`, for the metadata that a plugin has
  unfoldable pub get_plugins : Texts S → (String → Option S) → Registry P → Option String → Handling
  unfolding given plugin_list plugin_metadata write Dict.get
  get_plugins texts metadata r name =
      maybe (given name)
        (write (
          dict (
            texts.links (
              map (λ n. (n, "loaded")) (plugin_list r)
              ++ map (λ e. (e.0, "failed")) r.failed_plugins))))
        (λ n.
          maybe (Dict.get n r.failed_plugins)
            (maybe (plugin_metadata r metadata n) (throw (http_error 404 none))
              (λ m. write (dict (texts.loaded n m))))
            (λ trace. write (dict (texts.failed n trace))))
