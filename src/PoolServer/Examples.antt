-- ===== src/PoolServer/Examples.antt =====
-- A pool server with two workers.
use py_qgis_server.Prelude.{ℕ, zero, suc, true, none, some, [], ◌∷◌, ◌≡◌, refl}
use py_qgis_server.PoolServer.{get_reports, healthcheck, kill, wait_reports}
use py_qgis_server.Supervisor.{Supervisor, init, on_notice, report}

-- The worker 7 reports in the first second, and the other one never.
abbrev second : ℕ → Supervisor ℕ → Supervisor ℕ
second zero s = on_notice 1 0 7 (report 5) s
second (suc n) s = s

get_reports_one : (get_reports 2 second (some init)).0 ≡ 5 ∷ []
unfolding get_reports on_notice
get_reports_one = refl

wait_reports_seconds : (wait_reports 2 second 0 10 init).1 ≡ 10
unfolding wait_reports on_notice
wait_reports_seconds = refl

wait_reports_enough : (wait_reports 1 second 0 10 init).1 ≡ 1
unfolding wait_reports on_notice
wait_reports_enough = refl

healthcheck_kills :
    healthcheck 10 (
      record {
        exitcode = none;
        children = some (record { pid = 1; mem = 6 } ∷ (record { pid = 2; mem = 9 } ∷ []));
      }
      ∷ (record { exitcode = some 1; children = none } ∷ []))
    ≡ (kill (record { pid = 2; mem = 9 }) ∷ [], true)
unfolding healthcheck
healthcheck_kills = refl
