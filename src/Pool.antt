-- ===== src/Pool.antt =====
-- `Pool` (src/pyqgisserver/zeromq/pool.py): the worker processes, their reaping and replacement.
pub mod Upkeep
mod Examples
use py_qgis_server.Prelude.{
  ℕ, zero, suc, ◌+◌, ◌-◌, Bool, true, false, ◌&&◌, ◌||◌, Option, none, some, List, [], ◌∷◌, ◌++◌,
  nat_eq, ◌==◌, ltb, if◌then◌else◌, length,
}

-- `exitcode`: none, 0, or another one.
pub data ExitCode : Type 0 where
  running success failure : ExitCode

pub record Process : Type 0 where
  pub pid : ℕ
  pub exitcode : ExitCode

pub record Pool : Type 0 where
  pub num_workers : ℕ
  pub processes : List Process
  pub start_time : ℕ
  pub critical_failure : Bool

-- `EARLY_FAILURE_DELAY`
abbrev pub early_failure_delay : ℕ
early_failure_delay = 5

abbrev pub has_exited : Process → Bool
has_exited p = elim p.exitcode [ running ↦ false | _ ↦ true ]

abbrev pub has_failed : Process → Bool
has_failed p = elim p.exitcode [ failure ↦ true | _ ↦ false ]

-- What the loop of `_join_exited_workers` has made of a part of the list.
pub record Joined : Type 0 where
  pub processes : List Process
  pub critical : Bool
  pub cleaned : Bool

-- The loop runs from the last process to the first, here number `i`; `clock` is `time.time()` at
-- each of them.
unfoldable pub join_from : (ℕ → ℕ) → ℕ → ℕ → List Process → Joined
join_from clock start i [] = record { processes = []; critical = false; cleaned = false }
join_from clock start i (p ∷ ps) =
    let later = join_from clock start (i + 1) ps in
    if has_exited p
    then record {
      processes = later.processes;
      critical = later.critical || (has_failed p && ltb (clock i - start) early_failure_delay);
      cleaned = true;
    }
    else record later { processes = p ∷ later.processes }

-- `_join_exited_workers`
unfoldable pub join_exited_workers : (ℕ → ℕ) → Pool → Pool × Bool
unfolding join_from
join_exited_workers clock pool =
    let j = join_from clock pool.start_time 0 pool.processes in
    (
      record pool {
        processes = j.processes;
        critical_failure = pool.critical_failure || j.critical;
      },
      j.cleaned,
    )

-- New processes, with the process ids that the system gives them.
unfoldable pub spawn : ℕ → (ℕ → ℕ) → ℕ → List Process
spawn zero pids i = []
spawn (suc n) pids i = record { pid = pids i; exitcode = running } ∷ spawn n pids (i + 1)

-- `_repopulate_pool`
unfoldable pub repopulate_pool : (ℕ → ℕ) → Pool → Pool
unfolding spawn
repopulate_pool pids pool = record pool {
  processes = pool.processes ++ spawn (pool.num_workers - length pool.processes) pids 0;
}

-- `__init__`
unfoldable pub init : (ℕ → ℕ) → ℕ → ℕ → Pool
unfolding repopulate_pool
init pids num_workers now = repopulate_pool pids (record {
  num_workers = num_workers;
  processes = [];
  start_time = now;
  critical_failure = false;
})

unfoldable pub maintain_pool : (ℕ → ℕ) → (ℕ → ℕ) → Pool → Pool
unfolding join_exited_workers repopulate_pool
maintain_pool clock pids pool =
    let (pool', cleaned) = join_exited_workers clock pool in
    if cleaned then repopulate_pool pids pool' else pool'

-- `kill`: the process that gets the signal, and the answer
unfoldable pub kill_first : ℕ → List Process → Option Process × Bool
kill_first pid [] = (none, false)
kill_first pid (p ∷ ps) = if p.pid == pid then (some p, true) else kill_first pid ps

unfoldable pub kill : ℕ → Pool → Option Process × Bool
unfolding kill_first
kill pid pool = kill_first pid pool.processes

-- `_terminate_pool`: the processes that are told to end
unfoldable pub terminated : List Process → List Process
terminated [] = []
terminated (p ∷ ps) = if has_exited p then terminated ps else p ∷ terminated ps
