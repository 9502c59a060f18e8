-- ===== src/Observer/Examples.antt =====
-- The observer on the updates of two workers, for two projects.
use py_qgis_server.Prelude.{
  string_eq, List, [], ◌∷◌, ◌++◌, Bool, true, false, some, ok, ◌≡◌, refl, if◌then◌else◌,
}
use py_qgis_server.Components.Config.{Config, find_option}
use py_qgis_server.Cache.{inserted, updated}
use py_qgis_server.Dict
use py_qgis_server.Observer.{Call, Server, Update, receive_all}
use py_qgis_server.Observer.Life.{
  Declared, Received, declare_observers, declared_names, init, message, not_found, run_async,
  socket_error,
}
use py_qgis_server.Observer.Runs.{calls_of-run_async, declare_observers-init, taken}
use py_qgis_server.Observer.Keys.{ascents, time_of, calls_of, updates_of}

abbrev started : Server
started = record { observers = "ban" ∷ []; last_updates = []; calls = [] }

abbrev first : Update
first = record { key = "a"; modified_time = 5; state = inserted }

abbrev second : Update
second = record { key = "b"; modified_time = 3; state = updated }

abbrev stream : List Update
stream = first ∷ second ∷ first ∷ []

abbrev told : List Call
told = record { observer = "ban"; key = "a"; modified_time = 5; is_inserted = true } ∷ []

told_once : calls_of "a" (receive_all stream started).calls ≡ told
unfolding receive_all
told_once = refl

-- An error of the socket changes nothing, and what comes after the stop is not read.
abbrev received : List (Bool × Received)
received =
    (false, message 7 first)
    ∷ (false, socket_error)
    ∷ (false, message 8 first)
    ∷ (true, message 8 second)
    ∷ []

calls_of-run_async_example :
    calls_of "a" (run_async received started).1.calls
    ≡ []
      ++ ascents
          ("ban" ∷ [])
          (time_of (Dict.get "a" started.last_updates))
          (updates_of "a" (taken received))
calls_of-run_async_example = calls_of-run_async "a" received started

-- " ban, ,": one name
declared_one : declared_names (32 ∷ 98 ∷ 97 ∷ 110 ∷ 44 ∷ 32 ∷ 44 ∷ []) ≡ (98 ∷ 97 ∷ 110 ∷ []) ∷ []
unfolding declared_names
declared_one = refl

abbrev undeclared : Declared
undeclared = record { names = []; is_enabled = false }

abbrev config : Config
config = ("projects.cache", []) ∷ []

declare_observers-init_example :
    (d : Declared) × (c' : Config) × (declare_observers (98 ∷ []) false undeclared config
      ≡ (ok d, c'))
    × ((bound : Bool) (s : Server)
        → init (λ t. not_found) (λ t. "") d ≡ ok (bound, s)
        → find_option "projects.cache" "has_observers" c' ≡ some (if bound then "yes" else "no"))
unfolding Dict.get
declare_observers-init_example =
    declare_observers-init (98 ∷ []) false undeclared config [] (λ t. not_found) (λ t. "") refl
