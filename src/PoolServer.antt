-- ===== src/PoolServer.antt =====
-- The pool server (src/pyqgisserver/qgspool.py): the health check, the reports of the workers, the
-- files that are watched for restarts, and the loop of the pool's process.
mod Examples
pub mod Waiting
use py_qgis_server.Prelude.{
  ℕ, zero, suc, ◌+◌, String, Bool, true, false, ◌||◌, Option, none, some, List, [], ◌∷◌, ◌++◌,
  nat_eq, ◌==◌, ltb, leb, if◌then◌else◌,
}
use py_qgis_server.Components.Watch
use py_qgis_server.Components.Watch.{update_callback}
use py_qgis_server.Dict.{Dict}
use py_qgis_server.Oom.{Child, check_oom_status}
use py_qgis_server.Pool.{Pool, Process, maintain_pool, terminated}
use py_qgis_server.Prelude.{Result, ok, raise}
use py_qgis_server.Supervisor.{Supervisor, clear_reports, num_reports, reports_list}

-- What the server asks of the system.
pub data Effect : Type 0 where
  broadcast : String → Effect
  kill : Child → Effect
  terminate join : Effect

-- One round of the health check: the exit code of the pool's process, if it has exited, and the
-- children, if they can be read.
pub record Round : Type 0 where
  pub exitcode : Option ℕ
  pub children : Option (List Child)

unfoldable pub kill_all : List Child → List Effect
kill_all [] = []
kill_all (c ∷ cs) = kill c ∷ kill_all cs

unfoldable pub has_failed : Option ℕ → Bool
has_failed none = false
has_failed (some zero) = false
has_failed (some (suc n)) = true

-- `check_oom_status`, whose exceptions are caught
unfoldable pub oom_effects : ℕ → Option (List Child) → List Effect
unfolding kill_all check_oom_status
oom_effects mark none = []
oom_effects mark (some children) = kill_all (check_oom_status mark children)

-- `healthcheck`, over any rounds: what it does, and whether it exits with status 1
unfoldable pub healthcheck : ℕ → List Round → List Effect × Bool
unfolding has_failed oom_effects
healthcheck mark [] = ([], false)
healthcheck mark (r ∷ rounds) =
    let rest = healthcheck mark rounds in
    if has_failed r.exitcode then ([], true) else (oom_effects mark r.children ++ rest.0, rest.1)

-- `restart`
unfoldable pub restart : List Effect
restart = broadcast "RESTART" ∷ []

module _ {R : Type 0} where
  -- The loop of `get_reports`; `left` is `maxwait - so_far`, and `second` is what comes in during a
  -- second of sleep. The number is that of the seconds.
  unfoldable pub wait_reports :
      ℕ → (ℕ → Supervisor R → Supervisor R) → ℕ → ℕ → Supervisor R → Supervisor R × ℕ
  unfolding num_reports
  wait_reports num_workers second so_far zero s = (s, so_far)
  wait_reports num_workers second so_far (suc left) s =
      let rest = wait_reports num_workers second (suc so_far) left (second so_far s) in
      if ltb (num_reports s) num_workers then rest else (s, so_far)

  -- `get_reports`, which waits for 10 seconds at most; without a supervisor it returns no report
  unfoldable pub get_reports :
      ℕ
      → (ℕ → Supervisor R → Supervisor R)
      → Option (Supervisor R)
      → List R × Option (Supervisor R) × List Effect
  unfolding wait_reports clear_reports reports_list
  get_reports num_workers second none = ([], none, [])
  get_reports num_workers second (some s) =
      let waited = wait_reports num_workers second 0 10 (clear_reports s) in
      (reports_list waited.0, some waited.0, broadcast "REPORT" ∷ [])

-- `update_files`: the file of the option `restartmon`, and the manifests of the plugins
unfoldable pub update_files : Option String → Option (List String) → List String
update_files none none = []
update_files none (some manifests) = manifests
update_files (some file) none = file ∷ []
update_files (some file) (some manifests) = file ∷ manifests

abbrev pub restarts : List (List String) → List Effect
restarts [] = []
restarts (files ∷ calls) = restart ++ restarts calls

-- A round of the watch on the files that `_RestartHandler` starts.
unfoldable pub watch_restart :
    (String → Result Watch.Error ℕ) → List String → Dict String ℕ → List Effect × Dict String ℕ
unfolding update_callback restart
watch_restart stat files times =
    let found = update_callback stat files ([], times) in (restarts found.0, found.1)

-- `_terminate_pool`, for what the process says after each call: `exited` before, and whether it is
-- alive then
unfoldable pub terminate_pool : Bool → Bool → List Effect
terminate_pool exited alive =
    (if exited then [] else terminate ∷ []) ++ (if alive then join ∷ [] else [])

-- How the loop of the pool's process ends: `RuntimeError`, or an interrupt.
pub data Ending : Type 0 where
  aborted interrupted : Ending

-- One turn of the loop: what the pool sees of its processes, the clock, and the new process ids.
pub record Turn : Type 0 where
  pub observe : Pool → Pool
  pub clock : ℕ → ℕ
  pub pids : ℕ → ℕ

-- The loop of `run_worker_pool`, until the signal that comes after these turns.
unfoldable pub run_turns : List Turn → Pool → Ending × Pool
unfolding maintain_pool
run_turns [] pool = (interrupted, pool)
run_turns (t ∷ turns) pool =
    let rest = run_turns turns (maintain_pool t.clock t.pids (t.observe pool)) in
    if pool.critical_failure then (aborted, pool) else rest

-- `run_worker_pool`, with the processes that it terminates in the end
unfoldable pub run_worker_pool : List Turn → Pool → Ending × List Process
unfolding run_turns terminated
run_worker_pool turns pool =
    let ended = run_turns turns pool in (ended.0, terminated ended.1.processes)
