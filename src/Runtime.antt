-- ===== src/Runtime.antt =====
-- The start and the end of the server (`run_server` of src/pyqgisserver/runtime.py), and functions that
-- are evaluated once (src/pyqgisserver/utils/decorators.py).
mod Examples
pub mod Memo
use py_qgis_server.Prelude.{
  ℕ, Bool, true, false, ◌||◌, Option, none, some, List, [], ◌∷◌, ◌++◌, ltb, if◌then◌else◌, Result,
  ok, raise,
}
use py_qgis_server.Prelude.Actions.{
  Action, bind_result, gets, modify, pure, throw, maybe, when, ◌>>=◌, ◌>>◌,
}

-- The variables of `run_server` that are `None` until a part is there.
pub data Part : Type 0 where
  http_server management application cache_observer worker_pool broker : Part

-- What may raise.
pub data Step : Type 0 where
  create_broker create_pool bind_sockets create_application create_server add_sockets : Step
  start_management start_supervisor start_observer serve : Step

-- The code of a `SystemExit`: none, a number, or another object.
pub data ExitValue : Type 0 where
  no_code other_code : ExitValue
  code : ℕ → ExitValue

-- What ends the server before its signal.
pub data Stop : Type 0 where
  exception keyboard_interrupt : Stop
  system_exit : ExitValue → Stop

unfoldable pub is_same : Part → Part → Bool
is_same http_server http_server = true
is_same management management = true
is_same application application = true
is_same cache_observer cache_observer = true
is_same worker_pool worker_pool = true
is_same broker broker = true
is_same _ _ = false

-- `part is not None`, of the parts that are there
unfoldable pub is_there : Part → List Part → Bool
unfolding is_same
is_there p [] = false
is_there p (q ∷ parts) = is_same q p || is_there p parts

abbrev pub Startup : Type 0
Startup = Action Stop (List Part) (Unit {0})

module _ (fails : Step → Option Stop) where
  -- A step that may raise.
  unfoldable pub attempt : Step → Startup
  attempt step = maybe (fails step) (pure tt) throw

  -- A step that gives a part.
  unfoldable pub create : Step → Part → Startup
  unfolding attempt
  create step part = attempt step >> modify (λ parts. parts ++ part ∷ [])

  -- the `try` of `run_server`, with `_main`
  unfoldable pub run_main : ℕ → Bool → Startup
  unfolding attempt create is_there
  run_main workers managed = do
    create create_broker broker
    when (ltb 0 workers) (create create_pool worker_pool)
    attempt bind_sockets
    create create_application application
    create create_server http_server
    attempt add_sockets
    when managed (create start_management management)
    pooled ← gets (is_there worker_pool)
    when pooled (attempt start_supervisor)
    create start_observer cache_observer
    attempt serve

-- the `except` clauses and the `else`
unfoldable pub exit_code : Result Stop (Unit {0}) → ℕ
exit_code (ok u) = 0
exit_code (raise exception) = 1
exit_code (raise keyboard_interrupt) = 15
exit_code (raise (system_exit no_code)) = 0
exit_code (raise (system_exit (code n))) = n
exit_code (raise (system_exit other_code)) = 1

unfoldable pub stop_if : List Part → List Part → List Part
unfolding is_there
stop_if there [] = []
stop_if there (p ∷ parts) =
    let rest = stop_if there parts in if is_there p there then p ∷ rest else rest

-- The parts that are stopped, in the order of the code.
unfoldable pub teardown : List Part → List Part
unfolding stop_if
teardown there =
    stop_if there (
      http_server ∷ (management ∷ (application ∷ (cache_observer ∷ (worker_pool ∷ (broker ∷ []))))))

-- `run_server`: the exit code, and the parts that are stopped
unfoldable pub run_server : (Step → Option Stop) → ℕ → Bool → ℕ × List Part
unfolding run_main exit_code teardown
run_server fails workers managed =
    let ended = run_main fails workers managed [] in (exit_code ended.0, teardown ended.1)
