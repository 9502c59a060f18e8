-- ===== src/Supervisor/Examples.antt =====
-- The supervisor on small inputs.
use py_qgis_server.Prelude.{
  ℕ, ◌+◌, ◌≤◌, ◌≡◌, ◌↔◌, refl, true, false, none, some, List, [], ◌∷◌, arith, nat_eq,
}
use py_qgis_server.Supervisor.{
  Client, Notice, Sending, busy, done, taken, would_block, Supervisor, init, on_notice, fire,
}
use py_qgis_server.Supervisor.Timers.{noted}
use py_qgis_server.Supervisor.Kills.{start, notice, kills_exact, stale_timer_kills}
use py_qgis_server.Supervisor.Notifier.{
  Alternates, Call, OnceBusy, arrivals, call_busy, call_done, call_report, calls, calls-Alternates,
  calls-OnceBusy,
}

abbrev one_busy : Supervisor ℕ
one_busy = on_notice 20 5 7 busy init

-- Process 7 is busy since 5 and has 20 to go.
killed_at_25 : ((fire 24 0 one_busy).1 ≡ none) × ((fire 25 0 one_busy).1 ≡ some 7)
unfolding on_notice fire
killed_at_25 = (refl, refl)

kills_exact_example :
    ((handle : ℕ) × ((fire 25 handle one_busy).1 ≡ some 7))
    ↔ ((begun : ℕ) × (noted {R = ℕ} 5 7 busy (λ pid. none) 7 ≡ some begun) × (begun + 20 ≤ 25))
kills_exact_example =
    kills_exact 20 25 (noted {R = ℕ} 5 7 busy (λ pid. none)) one_busy 7
      (notice 5 7 busy start (λ e. refl))

stale_timer_kills_example :
    (fire 25 0 (on_notice 20 24 7 busy (on_notice 20 5 7 busy (init {R = ℕ})))).1 ≡ some 7
stale_timer_kills_example = stale_timer_kills 20 5 24 25 7 (init {R = ℕ}) (omega arith)

abbrev loop : List (Call ℕ × Sending)
loop =
    (call_done, taken)
    ∷ (call_busy, would_block)
    ∷ (call_busy, taken)
    ∷ (call_report 3, taken)
    ∷ (call_done, taken)
    ∷ (call_busy, taken)
    ∷ []

abbrev idle : Client
idle = record { enabled = true; is_busy = false }

handed_over :
    calls loop idle
    ≡ (busy, would_block) ∷ (Notice.report 3, taken) ∷ (done, taken) ∷ (busy, taken) ∷ []
unfolding calls
handed_over = refl

calls-Alternates_example : Alternates false (calls loop idle)
calls-Alternates_example = calls-Alternates loop false

calls-OnceBusy_example : OnceBusy false (arrivals (calls loop idle))
calls-OnceBusy_example = calls-OnceBusy loop tt

-- If a done notice is lost, the supervisor is told twice in a row that the process is busy.
done_lost :
    arrivals
      (calls {R = ℕ} ((call_busy, taken) ∷ (call_done, would_block) ∷ (call_busy, taken) ∷ []) idle)
    ≡ busy ∷ busy ∷ []
unfolding calls
done_lost = refl
