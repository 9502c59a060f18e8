-- ===== src/Pool/Upkeep.antt =====
-- What the upkeep of the pool leaves.
use py_qgis_server.Prelude.{
  ℕ, zero, suc, ◌+◌, ◌-◌, ◌≤◌, ◌≡◌, ◌⊎◌, refl, ap, Bool, true, false, ◌&&◌, ◌||◌, List, [], ◌∷◌,
  ◌++◌, arith, nat_eq, ltb, if◌then◌else◌, length, length-append, All, All-append, Bool-cases, inl,
  inr,
}
use Prim.Native.Nat.{max}
use py_qgis_server.Pool.{
  Process, Pool, early_failure_delay, has_exited, has_failed, join_from, spawn, init, maintain_pool,
}

-- The processes that have not exited, in order.
abbrev pub alive : List Process → List Process
alive [] = []
alive (p ∷ ps) = if has_exited p then alive ps else p ∷ alive ps

abbrev pub any_exited : List Process → Bool
any_exited [] = false
any_exited (p ∷ ps) = has_exited p || any_exited ps

-- Some process exited with an error while the pool was young.
abbrev pub failed_early : (ℕ → ℕ) → ℕ → ℕ → List Process → Bool
failed_early clock start i [] = false
failed_early clock start i (p ∷ ps) =
    failed_early clock start (i + 1) ps
    || (has_failed p && ltb (clock i - start) early_failure_delay)

abbrev pub IsRunning : Process → Type 0
IsRunning p = has_exited p ≡ false

module _ (clock : ℕ → ℕ) (start : ℕ) where
  join_from-processes :
      (i : ℕ) (ps : List Process) → (join_from clock start i ps).processes ≡ alive ps
  unfolding join_from
  join_from-processes i [] = refl
  join_from-processes i (p ∷ ps) = ground (arith, join_from-processes (i + 1) ps)

  join_from-critical :
      (i : ℕ) (ps : List Process)
      → (join_from clock start i ps).critical ≡ failed_early clock start i ps
  unfolding join_from
  join_from-critical i [] = refl
  join_from-critical i (p ∷ ps) = ground (arith, join_from-critical (i + 1) ps)

  join_from-cleaned :
      (i : ℕ) (ps : List Process) → (join_from clock start i ps).cleaned ≡ any_exited ps
  unfolding join_from
  join_from-cleaned i [] = refl
  join_from-cleaned i (p ∷ ps) = ground (arith, join_from-cleaned (i + 1) ps)

alive-IsRunning : (ps : List Process) → All IsRunning (alive ps)
alive-IsRunning [] = tt
alive-IsRunning (p ∷ ps) = ground (arith, alive-IsRunning ps)

alive_all : (ps : List Process) → any_exited ps ≡ false → alive ps ≡ ps
alive_all [] h = refl
alive_all (p ∷ ps) h = ground (arith, alive_all ps)

spawn-IsRunning : (n : ℕ) (pids : ℕ → ℕ) (i : ℕ) → All IsRunning (spawn n pids i)
unfolding spawn
spawn-IsRunning zero pids i = tt
spawn-IsRunning (suc n) pids i = (refl, spawn-IsRunning n pids (i + 1))

length-spawn : (n : ℕ) (pids : ℕ → ℕ) (i : ℕ) → length (spawn n pids i) ≡ n
unfolding spawn
length-spawn zero pids i = refl
length-spawn (suc n) pids i = ap suc (length-spawn n pids (i + 1))

-- The processes after the upkeep.
abbrev pub replaced : (ℕ → ℕ) → Pool → List Process
replaced pids pool =
    alive pool.processes ++ spawn (pool.num_workers - length (alive pool.processes)) pids 0

module _ (clock pids : ℕ → ℕ) (pool : Pool) where
  abbrev joined : Pool
  joined = record pool {
    processes = alive pool.processes;
    critical_failure = pool.critical_failure || failed_early clock pool.start_time 0 pool.processes;
  }

  abbrev refilled : Pool
  refilled = record joined { processes = replaced pids pool }

  maintain-refilled : any_exited pool.processes ≡ true → maintain_pool clock pids pool ≡ refilled
  unfolding maintain_pool
  maintain-refilled e = ground (
    arith,
    join_from-processes clock pool.start_time 0 pool.processes,
    join_from-critical clock pool.start_time 0 pool.processes,
    join_from-cleaned clock pool.start_time 0 pool.processes,
  )

  maintain-joined : any_exited pool.processes ≡ false → maintain_pool clock pids pool ≡ joined
  unfolding maintain_pool
  maintain-joined e = ground (
    arith,
    join_from-processes clock pool.start_time 0 pool.processes,
    join_from-critical clock pool.start_time 0 pool.processes,
    join_from-cleaned clock pool.start_time 0 pool.processes,
  )

  length-replaced :
      length (replaced pids pool) ≡ max pool.num_workers (length (alive pool.processes))
  length-replaced = omega (
    arith,
    length-append (alive pool.processes)
        (spawn (pool.num_workers - length (alive pool.processes)) pids 0),
    length-spawn (pool.num_workers - length (alive pool.processes)) pids 0,
  )

  -- One upkeep round. If no process has exited the processes stay as they are. Otherwise those that
  -- run stay, in order, running ones are added behind them, and there are then `num_workers`, or
  -- more if more were running. The critical flag is set if a process is found to have failed while
  -- the pool was young, and is never taken back.
  pub maintain_pool_lem :
      ((any_exited pool.processes ≡ false)
          × ((maintain_pool clock pids pool).processes ≡ pool.processes)
        ⊎ (any_exited pool.processes ≡ true)
          × ((maintain_pool clock pids pool).processes ≡ replaced pids pool)
          × (length (maintain_pool clock pids pool).processes
              ≡ max pool.num_workers (length (alive pool.processes))))
      × All IsRunning (maintain_pool clock pids pool).processes
      × ((maintain_pool clock pids pool).critical_failure
          ≡ (pool.critical_failure || failed_early clock pool.start_time 0 pool.processes))
  maintain_pool_lem = elim (Bool-cases (any_exited pool.processes)) [
    | inl gone ↦ rw (maintain-refilled gone) (
      inr (gone, refl, length-replaced),
      All-append IsRunning (alive pool.processes)
          (spawn (pool.num_workers - length (alive pool.processes)) pids 0)
          (alive-IsRunning pool.processes) (spawn-IsRunning _ pids 0),
      refl,
    )
    | inr all_run ↦
        rw (maintain-joined all_run)
          (inl (all_run, alive_all pool.processes all_run), alive-IsRunning pool.processes, refl)
  ]

length-alive-le : (ps : List Process) → length (alive ps) ≤ length ps
length-alive-le [] = omega arith
length-alive-le (p ∷ ps) = ground (arith, length-alive-le ps)

-- The pool starts with `num_workers` running processes, and an upkeep round keeps their number,
-- whichever of them have exited.
pub pool_size :
    (clock pids : ℕ → ℕ) (num_workers now : ℕ) (pool : Pool)
    → length pool.processes ≡ pool.num_workers
    → (length (init pids num_workers now).processes ≡ num_workers)
      × (length (maintain_pool clock pids pool).processes ≡ pool.num_workers)
pool_size clock pids num_workers now pool h = (
  unfold init in omega (arith, length-spawn (num_workers - 0) pids 0),
  elim (maintain_pool_lem clock pids pool).0 [
    | inl (all_run, same) ↦ rw same h
    | inr (gone, same, size) ↦ omega (arith, size, h, length-alive-le pool.processes)
  ],
)
