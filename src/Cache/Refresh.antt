-- ===== src/Cache/Refresh.antt =====
-- The operations on many entries: `refresh` of src/pyqgisserver/qgscache/cachemanager.py with its
-- caller in src/pyqgisserver/qgsworker.py, and the preloading of a list of projects. Each entry
-- has its own handlers, those at the time when it is updated.
use py_qgis_server.Prelude.{
  ℕ, ◌+◌, String, List, [], ◌∷◌, map, reverse, string_eq, Result, ok, raise,
}
use py_qgis_server.Prelude.Actions.{Action, pure, catch, ◌>>=◌, ◌>>◌}
use py_qgis_server.Cache.{Manager, Services, UpdateState, update_entry, update_static_entry}
use py_qgis_server.Cache.Urls.{Config, Error, file_not_found, path_not_allowed, strict_checking}
use py_qgis_server.Lru

module _ {P : Type 0} where
  -- the keys of the LRU table, the least recent first
  unfoldable pub refresh_keys : Manager P → List String
  unfolding Lru.items
  refresh_keys m = reverse (map (λ e. e.0) (Lru.items m.lru))

module _ {P : Type 0} (cnf : Config) (w : String → Services P) where
  -- `for key, _ in self.items(CacheType.STATIC): self.update_static_entry(key)`
  unfoldable pub update_statics : List String → Action Error (Manager P) Unit
  unfolding update_static_entry
  update_statics [] = pure tt
  update_statics (key ∷ rest) = update_static_entry cnf (w key) key >> update_statics rest

  -- `((key, self.update_entry(key)) for key in keys)`, read to its end
  unfoldable pub update_entries :
      List String → Action Error (Manager P) (List (String × UpdateState))
  unfolding update_entry
  update_entries [] = pure []
  update_entries (key ∷ rest) = update_entry cnf (w key) key >>= λ u.
      update_entries rest >>= λ states. pure ((key, u) ∷ states)

  -- `refresh`
  unfoldable pub refresh : Action Error (Manager P) (List (String × UpdateState))
  unfolding update_statics update_entries refresh_keys
  refresh =
      (λ m. update_statics (map (λ e. e.0) m.static) m) >> (λ m. update_entries (refresh_keys m) m)

-- The exceptions that `preload_projects_file` logs.
unfoldable pub is_logged : Error → Result Error (Unit {0})
is_logged strict_checking = ok tt
is_logged path_not_allowed = ok tt
is_logged file_not_found = ok tt
is_logged x = raise x

module _ {P : Type 0} (cnf : Config) (w : String → Services P) where
  -- One line of the file: how many projects it has loaded.
  unfoldable pub preload : String → Action Error (Manager P) ℕ
  unfolding update_static_entry is_logged
  preload p =
      catch (update_static_entry cnf (w p) p >> pure 1)
        (λ x. (λ m. elim (is_logged x) [ ok _ ↦ (ok 0, m) | raise y ↦ (raise y, m) ]))

  -- `preload_projects_file` on the lines of the file without comments and blanks
  unfoldable pub preload_projects : List String → ℕ → Action Error (Manager P) ℕ
  unfolding preload
  preload_projects [] loaded_so_far = pure loaded_so_far
  preload_projects (p ∷ rest) loaded_so_far =
      preload p >>= λ n. preload_projects rest (n + loaded_so_far)
