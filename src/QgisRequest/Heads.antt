-- ===== src/QgisRequest/Heads.antt =====
-- A HEAD request in the loop of the worker (src/pyqgisserver/zeromq/worker.py).
use py_qgis_server.Prelude.{
  String, true, false, Option, none, some, [], ◌∷◌, ◌≡◌, refl, inl, inr, Result, ok, raise,
}
use py_qgis_server.Cache.Times.{get_modified_time}
use py_qgis_server.Cache.Urls
use py_qgis_server.Messages.{Payload, reply}
use py_qgis_server.QgisRequest.{Step, dispatch}
use py_qgis_server.QgisRequest.State.{Context, Error, Session, cache_error}
use py_qgis_server.Response
use py_qgis_server.Supervisor.{Notice, Sending, busy, done}
use py_qgis_server.Worker
use py_qgis_server.Worker.Brackets.{idle}
use py_qgis_server.Worker.Failures.{error_reply, serve-Answered}
use py_qgis_server.Worker.Loop.{
  Outcome, Round, answer, exception, exited, finished, internal_error, notice, serve, silence,
  zmq_error,
}

-- How the loop sees the end of a request.
unfoldable pub outcome : Result Error (Unit {0}) → Outcome
outcome (ok _) = finished
outcome (raise (Error.worker_error Worker.Error.zmq_error)) = zmq_error
outcome (raise x) = exception

module _ {P : Type 0} (c : Context P) where
  -- A round of the loop in which a request comes and is handled from the state `s`.
  unfoldable pub request_round :
      {R : Type 0} → (Notice R → Sending) → Step P (Unit {0}) → Session P → Round R
  unfolding outcome
  request_round sending action s = record {
    announced = true;
    reception = finished;
    construction = finished;
    handle_message = λ h.
        let r = action (record s { response = Response.init h }) in
        (outcome r.0, r.1.response.handler);
    wire = c.wire;
    sending = sending;
    broadcast = silence;
  }

  head_raises :
      (location : String) (request_id : Option String) (s : Session P) (x : Urls.Error)
      → c.is_head ≡ true
      → (get_modified_time c.urls c.services c.last_modified location false s.cache).0 ≡ raise x
      → dispatch c (some "OWS") (some location) request_id s ≡ (
        raise (cache_error x),
        record s {
          cache = (get_modified_time c.urls c.services c.last_modified location false s.cache).1;
        },
      )
  unfolding dispatch
  head_raises location request_id s x head h = rw (head, h) refl

  -- Whatever exception the modification time of its project raises, a HEAD request of the OWS scheme
  -- is answered by an error 500 and ends the worker.
  pub head_ends_worker :
      {R : Type 0} (sending : Notice R → Sending) (location : String) (request_id : Option String)
      (s : Session P) (x : Urls.Error)
      → c.is_head ≡ true
      → ((p : Payload) → c.wire [] p ≡ true)
      → (get_modified_time c.urls c.services c.last_modified location false s.cache).0 ≡ raise x
      → serve {R = R}
          (request_round sending (dispatch c (some "OWS") (some location) request_id) s)
          idle
        ≡ (
          exited,
          idle,
          notice busy (sending busy)
              ∷ (answer (reply 500 [] internal_error none) ∷ (notice done (sending done) ∷ [])),
        )
  unfolding request_round
  head_ends_worker {R} sending location request_id s x head up h =
      let started : Session P = record s { response = Response.init Worker.init } in
      let e = head_raises location request_id started x head h in
      elim (serve-Answered {R = R}
        (request_round sending (dispatch c (some "OWS") (some location) request_id) s) Worker.init
        refl refl (rw e refl)) [
          | inl (written, _) ↦ absurd (cc)
          | inr (inl (_, _, q)) ↦ q
          | inr (inr (_, refused, _)) ↦ absurd (cc (up (error_reply Worker.init)))
        ]
