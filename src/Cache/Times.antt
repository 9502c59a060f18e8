-- ===== src/Cache/Times.antt =====
-- `get_modified_time` of the cache manager (src/pyqgisserver/qgscache/cachemanager.py).
use py_qgis_server.Prelude.{ℕ, String, Bool, Option, none, some, if◌then◌else◌, Result, ok, raise}
use py_qgis_server.Prelude.Actions.{Action, ◌>>=◌}
use py_qgis_server.Cache.{Manager, Services, get_protocol_handler, on_aliases, peek, whole_seconds}
use py_qgis_server.Cache.Urls.{Config, Error, Url, file_not_found, resolve_alias}

module _ {P : Type 0} (cnf : Config) (w : Services P) where
  -- the time that the handler of the URL's scheme gives
  unfoldable pub stored_time : Url → Result Error ℕ
  unfolding get_protocol_handler whole_seconds
  stored_time url = elim (get_protocol_handler cnf w url.scheme) [
    | raise x ↦ raise x
    | ok store ↦ elim (store.get_modified_time url) [
      | raise x ↦ raise x
      | ok t ↦ ok (whole_seconds t)
    ]
  ]

  -- `get_modified_time`; the time that QGIS gives for a project is a parameter, `none` if invalid
  unfoldable pub get_modified_time : (P → Option ℕ) → String → Bool → Action Error (Manager P) ℕ
  unfolding stored_time peek resolve_alias whole_seconds
  get_modified_time last_modified key from_cache m = elim (peek m key) [
    | some d ↦
        if from_cache
        then (ok (whole_seconds d.timestamp), m)
        else (elim (last_modified d.project) [
          | none ↦ (raise file_not_found, m)
          | some t ↦ (ok (whole_seconds t), m)
        ])
    | none ↦ on_aliases (resolve_alias cnf key >>= λ url. (λ a. (stored_time url, a))) m
  ]
