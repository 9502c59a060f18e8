-- ===== src/Worker/Examples.antt =====
-- A worker on three rounds: nothing arrives, a request that is answered, and one that fails.
use py_qgis_server.Prelude.{String, true, false, none, List, [], ◌∷◌, ◌≡◌, refl}
use py_qgis_server.Messages.{reply}
use py_qgis_server.Supervisor.{busy, done, taken}
use py_qgis_server.Worker.{init}
use py_qgis_server.Worker.Brackets.{Bracketed, idle, run-Bracketed}
use py_qgis_server.Worker.Failures.{Answered, serve-Answered}
use py_qgis_server.Worker.Loop.{
  Event, Round, again, answer, exception, finished, internal_error, notice, ready, run, silence,
}

abbrev quiet : Round String
quiet = record {
  announced = true;
  reception = again;
  construction = finished;
  handle_message = λ h. (finished, h);
  wire = λ sent p. true;
  sending = λ n. taken;
  broadcast = silence;
}

abbrev answering : Round String
answering = record quiet {
  reception = finished;
  handle_message =
      λ h. (finished, record h { header_written = true; sent = reply 200 [] (1 ∷ []) none ∷ [] });
}

abbrev failing : Round String
failing = record quiet { reception = finished; handle_message = λ h. (exception, h) }

abbrev expected : List (Event String)
expected =
    ready
    ∷ ready
    ∷ notice busy taken
    ∷ answer (reply 200 [] (1 ∷ []) none)
    ∷ notice done taken
    ∷ ready
    ∷ notice busy taken
    ∷ answer (reply 500 [] internal_error none)
    ∷ notice done taken
    ∷ []

run_three : (run (quiet ∷ answering ∷ failing ∷ quiet ∷ []) idle).events ≡ expected
unfolding run
run_three = refl

run-Bracketed_example :
    ((run (quiet ∷ answering ∷ failing ∷ quiet ∷ []) idle).supervisor ≡ idle)
    × Bracketed false (run (quiet ∷ answering ∷ failing ∷ quiet ∷ []) idle).events
run-Bracketed_example = run-Bracketed (quiet ∷ answering ∷ failing ∷ quiet ∷ [])

serve-Answered_example : Answered failing init
serve-Answered_example = serve-Answered failing init refl refl refl

-- A worker that cannot announce itself ends, and a failed broadcast ends it after the answer.
run_crashed : (run (record quiet { announced = false } ∷ answering ∷ []) idle).events ≡ []
unfolding run
run_crashed = refl
