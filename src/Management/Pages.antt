-- ===== src/Management/Pages.antt =====
-- The handlers of the management server (src/pyqgisserver/management/server.py). JSON and the quoting
-- of a URL are parameters.
use Prim.Native.String.{◌++◌ as ◌^◌}
use text.Mathlib.Text.{starts_with}
use py_qgis_server.Prelude.{ℕ, String, Option, List, [], ◌∷◌, map, string_eq, ◌==◌, if◌then◌else◌}
use py_qgis_server.Prelude.Actions.{maybe}
use py_qgis_server.Cache.Urls.{given}
use py_qgis_server.Dict
use py_qgis_server.Dict.{Dict}
use py_qgis_server.Http.{handle_request}
use py_qgis_server.Http.Base.{write_json}
use py_qgis_server.Http.Calls.{Handling, call, send_error}
use py_qgis_server.Http.Services.{Context}
use py_qgis_server.PoolServer.{Effect, get_reports, restart}
use py_qgis_server.Supervisor.{Supervisor}
use py_qgis_server.Text.{Text}

-- `_get_cache_link`, for the protocol and the host of the request
unfoldable pub get_cache_link : (String → String) → String → String → String → String
get_cache_link quote protocol host key =
    protocol
    ^ ("://"
        ^ (host
            ^ (if starts_with key "/"
                then "/cache/content/?MAP=" ^ quote key
                else "/cache/content/" ^ quote key)))

-- `_RestartHandler.post`: what the pool server does
unfoldable pub post_action : String → List Effect
unfolding restart
post_action action = if action == "restart" then restart else []

-- The links of `_ReportHandler.get`, for the keys that each report has.
unfoldable pub add_links :
    {R : Type 0} → (R → List String) → (String → String) → List R → List (R × List String)
add_links keys link [] = []
add_links keys link (r ∷ rs) = (r, map link (keys r)) ∷ add_links keys link rs

-- `_ReportHandler.get`
unfoldable pub get_report :
    {R : Type 0}
    → (R → List String)
    → (String → String)
    → ℕ
    → (ℕ → Supervisor R → Supervisor R)
    → Option (Supervisor R)
    → List (R × List String) × Option (Supervisor R) × List Effect
unfolding get_reports add_links
get_report keys link num_workers second supervisor =
    let found = get_reports num_workers second supervisor in
    (add_links keys link found.0, found.1, found.2)

-- The links of `_RootHandler.get`, with their titles.
unfoldable pub root_links : String → String → List (String × String)
root_links protocol host =
    (protocol ^ ("://" ^ (host ^ "/status")), "Server status and configuration")
    ∷ ((protocol ^ ("://" ^ (host ^ "/plugins")), "Plugins managment")
        ∷ ((protocol ^ ("://" ^ (host ^ "/cache")), "Projects cache managment")
            ∷ ((protocol ^ ("://" ^ (host ^ "/pool")), "Workers pool status") ∷ [])))

-- The list of the cached projects: the key, its time, and its link.
unfoldable pub cached_items : (String → String) → Dict String ℕ → List (String × ℕ × String)
cached_items link [] = []
cached_items link ((key, modified) ∷ rest) = (key, modified, link key) ∷ cached_items link rest

-- `_CacheHandler.get`, for the projects that the observer has; `parameter` is the argument MAP
unfoldable pub get_cached :
    Context
    → Text
    → (List (String × ℕ × String) → Text)
    → (String → String)
    → Dict String ℕ
    → Option String
    → Option String
    → Handling (Unit {0})
unfolding given cached_items write_json call handle_request Dict.get
get_cached c json dumps link observed parameter key =
    maybe (given key)
      (maybe (given parameter) (write_json c json (dumps (cached_items link observed))) delegate)
      delegate
  where
    delegate : String → Handling (Unit {0})
    delegate k =
        maybe (Dict.get k observed) (call (send_error 404 ("Project '" ^ (k ^ "' not in cache"))))
          (λ t. handle_request c "GET")
