-- ===== src/PoolServer/Waiting.antt =====
-- The wait for reports, and the end of a pool that has failed.
use py_qgis_server.Prelude.{
  ℕ, zero, suc, ◌+◌, ◌≤◌, ltb, true, List, ◌∷◌, ◌≡◌, refl, inl, inr, ◌⊎◌, Bool-cases, arith,
}
use py_qgis_server.PoolServer.{Turn, aborted, run_turns, wait_reports}
use py_qgis_server.Pool.{Pool}
use py_qgis_server.Supervisor.{Supervisor, num_reports}

module _ {R : Type 0} where
  -- The wait ends with all reports, or after the last second.
  pub wait_reports-enough :
      (num_workers : ℕ) (second : ℕ → Supervisor R → Supervisor R) (so_far left : ℕ)
      (s : Supervisor R)
      → (num_workers ≤ num_reports (wait_reports num_workers second so_far left s).0)
        ⊎ ((wait_reports num_workers second so_far left s).1 ≡ so_far + left)
  unfolding wait_reports
  wait_reports-enough num_workers second so_far zero s = inr (omega arith)
  wait_reports-enough num_workers second so_far (suc left) s =
      elim (Bool-cases (ltb (num_reports s) num_workers)) [
        | inl h ↦
            elim (wait_reports-enough num_workers second (suc so_far) left (second so_far s)) [
              | inl k ↦ inl (simp h k)
              | inr k ↦ inr (simp h (omega (arith, k)))
            ]
        | inr h ↦ inl (simp h (ground arith))
      ]

-- A pool with a critical failure is not kept up any more, whatever follows.
pub run_turns-aborted :
    (turns : List Turn) (t : Turn) (pool : Pool)
    → pool.critical_failure ≡ true
    → run_turns (t ∷ turns) pool ≡ (aborted, pool)
unfolding run_turns
run_turns-aborted turns t pool h = simp h refl
