-- ===== src/Observer.antt =====
-- The cache observer (src/pyqgisserver/qgscache/observer.py): the server that gathers the updates of
-- the workers' caches and calls the observers.
mod Examples
pub mod Keys
pub mod Life
pub mod Runs
use py_qgis_server.Prelude.{
  ℕ, String, Bool, true, false, Option, none, some, List, [], ◌∷◌, ◌++◌, map, string_eq, ltb,
  if◌then◌else◌,
}
use py_qgis_server.Cache.{UpdateState, unchanged, inserted, updated}
use py_qgis_server.Dict
use py_qgis_server.Dict.{Dict}

-- A message of a worker.
pub record Update : Type 0 where
  pub key : String
  pub modified_time : ℕ
  pub state : UpdateState

-- A call `obs.observe(key, modified_time, inserted)`.
pub record Call : Type 0 where
  pub observer : String
  pub key : String
  pub modified_time : ℕ
  pub is_inserted : Bool

pub record Server : Type 0 where
  pub observers : List String
  pub last_updates : Dict String Update
  pub calls : List Call

-- `state == UpdateState.INSERTED`
unfoldable pub is_inserted : UpdateState → Bool
is_inserted unchanged = false
is_inserted inserted = true
is_inserted updated = false

-- `notify_observers`: an exception of an observer is caught
unfoldable pub notify_observers : List String → Update → List Call
unfolding is_inserted
notify_observers observers u =
    map
      (λ o. record {
        observer = o;
        key = u.key;
        modified_time = u.modified_time;
        is_inserted = is_inserted u.state;
      })
      observers

-- `do_notify`, against the entry of the key
unfoldable pub do_notify : Option Update → Update → Bool
do_notify none u = true
do_notify (some entry) u = ltb entry.modified_time u.modified_time

-- One message in `_run_async`.
unfoldable pub receive : Update → Server → Server
unfolding do_notify notify_observers Dict.get Dict.put
receive u s = record s {
  last_updates = Dict.put u.key u s.last_updates;
  calls =
      s.calls
      ++ (if do_notify (Dict.get u.key s.last_updates) u
          then notify_observers s.observers u
          else []);
}

unfoldable pub receive_all : List Update → Server → Server
unfolding receive
receive_all [] s = s
receive_all (u ∷ us) s = receive_all us (receive u s)
