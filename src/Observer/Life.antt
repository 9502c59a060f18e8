-- ===== src/Observer/Life.antt =====
-- The life of the cache observer (src/pyqgisserver/qgscache/observer.py): the declaration of observers
-- before the workers are forked, the client in a worker, the loading of the observers, and the loop of
-- the server until it is stopped; with the observer for tests (qgscache/observers/test.py).
use py_qgis_server.Prelude.{
  ℕ, String, Bool, true, false, ◌||◌, Option, List, [], ◌∷◌, ◌++◌, map, string_eq, if◌then◌else◌,
  Result, ok, raise,
}
use py_qgis_server.Prelude.Actions.{Action, pure, ◌>>◌}
use py_qgis_server.Components.Config.{Config, Error, set}
use py_qgis_server.Dict
use py_qgis_server.Dict.{Dict}
use py_qgis_server.Http.Services.{is_given}
use py_qgis_server.Observer.{Call, Server, Update, receive}
use py_qgis_server.Text.{Text, split, strip}

-- `name for name in names if name`
unfoldable pub given_names : List Text → List Text
unfolding is_given
given_names [] = []
given_names (name ∷ names) =
    let rest = given_names names in if is_given name then name ∷ rest else rest

-- The class `Server`: the names that are declared, and whether the observer is enabled.
pub record Declared : Type 0 where
  pub names : List Text
  pub is_enabled : Bool

unfoldable pub is_any : List Text → Bool
is_any [] = false
is_any (name ∷ names) = true

unfoldable pub declared_names : Text → List Text
unfolding given_names strip split
declared_names observers = given_names (map strip (split 44 observers))

-- `declare_observers`, for the option `observers` and that of the management; `before` is what the
-- class had.
unfoldable pub declare_observers : Text → Bool → Declared → Action Error Config Declared
unfolding declared_names is_any set
declare_observers observers managed before =
    let enabled = is_any (declared_names observers) || managed || before.is_enabled in
    set "projects.cache" "has_observers" (if enabled then "yes" else "no")
    >> pure (record { names = declared_names observers; is_enabled = enabled })

-- `Client._send`: the process and an update go out if the socket takes them; its errors are not
-- raised.
pub data Sending : Type 0 where
  sent again failed : Sending

unfoldable pub observe : ℕ → Update → Sending → List (ℕ × Update) → List (ℕ × Update)
observe pid u sent queue = queue ++ (pid, u) ∷ []
observe pid u again queue = queue
observe pid u failed queue = queue

-- The loading of an observer: `EntryPointNotFoundError` is caught, other exceptions, of the module or
-- of its `init`, are not.
pub data Loading : Type 0 where
  loaded not_found broken : Loading

unfoldable pub cons_ok : Text → Result (Unit {0}) (List Text) → Result (Unit {0}) (List Text)
cons_ok name (ok names) = ok (name ∷ names)
cons_ok name (raise x) = raise x

-- `_load_observers`
unfoldable pub load_observers : (Text → Loading) → List Text → Result (Unit {0}) (List Text)
unfolding cons_ok
load_observers load [] = ok []
load_observers load (name ∷ names) =
    let rest = load_observers load names in
    elim (load name) [ loaded ↦ cons_ok name rest | not_found ↦ rest | broken ↦ raise tt ]

-- `Server.__init__`: whether its socket is bound, and the observers; `name_of` gives the name of a
-- loaded one.
unfoldable pub init :
    (Text → Loading) → (Text → String) → Declared → Result (Unit {0}) (Bool × Server)
unfolding load_observers
init load name_of d = elim (load_observers load d.names) [
  | raise x ↦ raise x
  | ok names ↦
      ok (d.is_enabled, record { observers = map name_of names; last_updates = []; calls = [] })
]

-- What `recv_pyobj` gives: a message of a process, an error of the socket, the cancellation of the
-- task, or another exception.
pub data Received : Type 0 where
  message : ℕ → Update → Received
  socket_error cancelled exception : Received

pub data Ending : Type 0 where
  waiting stopped ended : Ending

-- `_run_async`, on what is received, each with whether `stop` has been called before.
unfoldable pub run_async : List (Bool × Received) → Server → Ending × Server
unfolding receive
run_async [] s = (waiting, s)
run_async ((is_stopped, r) ∷ rest) s = if is_stopped then (stopped, s) else elim r [
  | message pid u ↦ run_async rest (receive u s)
  | socket_error ↦ run_async rest s
  | cancelled ↦ (ended, s)
  | exception ↦ (ended, s)
]

-- `find`
unfoldable pub find : String → Server → Option Update
unfolding Dict.get
find key s = Dict.get key s.last_updates

-- `observe` of the observer for tests, on what it keeps
unfoldable pub observe_test : Call → Dict String Call → Dict String Call
unfolding Dict.put
observe_test c data_of = Dict.put c.key c data_of
