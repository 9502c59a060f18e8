-- ===== src/Broker/Examples.antt =====
-- The broker on small inputs.
use py_qgis_server.Prelude.{
  ◌+◌, ◌≤◌, ◌≡◌, refl, true, false, none, some, List, [], ◌∷◌, ◌++◌, arith, count, All, string_eq,
}
use py_qgis_server.Broker.{
  Request, Broker, Input, to_client, to_worker, dropped, worker_ready, turn, turns,
}
use py_qgis_server.Broker.Dispatch.{settled, assigned, InTime}
use py_qgis_server.Broker.Turns.{IsValid, taken, turn-conserves, turn-InTime, turn-progress}
use py_qgis_server.Broker.Runs.{all_taken, all_announces, turns-conserves, turns-workers}

abbrev old : Request
old = record { time = 10; client = "c1"; msgid = "m1"; body = "b1" }

abbrev fresh : Request
fresh = record { time = 3000; client = "c2"; msgid = "m2"; body = "b2" }

abbrev busy : Broker
busy = record { workers = "w1" ∷ []; waiting = old ∷ fresh ∷ [] }

-- A worker announces itself and a request comes in; every send succeeds.
abbrev calm : Input
calm = record {
  backend = some ("w2" ∷ worker_ready ∷ []);
  frontend = some ("c3" ∷ "m3" ∷ "b3" ∷ []);
  arrival = 4000;
  now = 4000;
  pick = λ ws. 0;
  frontend_sends = λ msg. true;
  backend_sends = λ msg. true;
}

-- The worker `w1` answers, and cannot be reached any more.
abbrev rough : Input
rough = record calm {
  backend = some ("w1" ∷ "c0" ∷ "m0" ∷ "b0" ∷ []);
  backend_sends = λ msg. false;
}

turn-calm :
    turn 2 3000 (record calm { frontend = none }) busy
    ≡ (record { workers = "w2" ∷ []; waiting = [] }, dropped old ∷ to_worker "w1" fresh ∷ [])
unfolding turn
turn-calm = refl

turn-rough : turn 2 3000 rough busy ≡ (
  record { workers = []; waiting = fresh ∷ [] },
  to_client ("c0" ∷ "m0" ∷ "b0" ∷ [])
      ∷ to_client ("c3" ∷ "m3" ∷ "ERR" ∷ "509" ∷ [])
      ∷ dropped old
      ∷ [],
)
unfolding turn
turn-rough = refl

busy-IsValid : IsValid 2 busy
busy-IsValid = record { bounded = omega arith; distinct = λ v. ground arith }

turn-conserves_example :
    settled (turn 3 3000 calm busy).1 ++ (turn 3 3000 calm busy).0.waiting
    ≡ busy.waiting ++ taken 3 3000 calm busy
turn-conserves_example = turn-conserves 3 3000 calm busy

turn-InTime_example : All (InTime 3000 4000) (turn 3 3000 calm busy).1
turn-InTime_example = turn-InTime 3 3000 calm busy

turn-progress_example : (rest : List Request) × (settled (turn 3 3000 calm busy).1 ≡ old ∷ rest)
turn-progress_example = turn-progress 3 3000 calm busy "w1" old (fresh ∷ []) refl refl refl

turns-conserves_example :
    settled (turns 2 3000 (rough ∷ calm ∷ []) busy).1
      ++ (turns 2 3000 (rough ∷ calm ∷ []) busy).0.waiting
    ≡ busy.waiting ++ all_taken 2 3000 (rough ∷ calm ∷ []) busy
turns-conserves_example = turns-conserves 2 3000 (rough ∷ calm ∷ []) busy

turns-workers_example :
    count "w2" (assigned (turns 2 3000 (rough ∷ calm ∷ []) busy).1)
      + count "w2" (turns 2 3000 (rough ∷ calm ∷ []) busy).0.workers
    ≤ count "w2" busy.workers + all_announces 2 3000 "w2" (rough ∷ calm ∷ [])
turns-workers_example = turns-workers 2 3000 "w2" (rough ∷ calm ∷ []) busy
