-- ===== src/Pool/Examples.antt =====
-- The pool on small inputs.
use Prim.Native.Nat.{max}
use py_qgis_server.Prelude.{ℕ, ◌+◌, ◌≡◌, ◌⊎◌, refl, true, false, ◌||◌, [], ◌∷◌, length, All}
use py_qgis_server.Pool.{Pool, running, success, failure, maintain_pool}
use py_qgis_server.Pool.Upkeep.{
  alive, any_exited, failed_early, IsRunning, replaced, maintain_pool_lem,
}

abbrev three : Pool
three = record {
  num_workers = 3;
  processes =
      record { pid = 1; exitcode = success }
      ∷ record { pid = 2; exitcode = running }
      ∷ record { pid = 3; exitcode = failure }
      ∷ [];
  start_time = 100;
  critical_failure = false;
}

abbrev clock : ℕ → ℕ
clock i = 102

abbrev pids : ℕ → ℕ
pids i = i + 10

maintained : maintain_pool clock pids three ≡ record three {
  processes =
      record { pid = 2; exitcode = running }
      ∷ record { pid = 10; exitcode = running }
      ∷ record { pid = 11; exitcode = running }
      ∷ [];
  critical_failure = true;
}
unfolding maintain_pool
maintained = refl

maintain_pool_lem_example :
    ((any_exited three.processes ≡ false)
        × ((maintain_pool clock pids three).processes ≡ three.processes)
      ⊎ (any_exited three.processes ≡ true)
        × ((maintain_pool clock pids three).processes ≡ replaced pids three)
        × (length (maintain_pool clock pids three).processes
            ≡ max 3 (length (alive three.processes))))
    × All IsRunning (maintain_pool clock pids three).processes
    × ((maintain_pool clock pids three).critical_failure
        ≡ (false || failed_early clock 100 0 three.processes))
maintain_pool_lem_example = maintain_pool_lem clock pids three
