-- ===== src/Http/Relay.antt =====
-- A request from its arrival to the accounting: what its client gets, and what is counted.
use py_qgis_server.Prelude.{
  ℕ, suc, ◌+◌, leb, String, true, Option, none, some, [], ◌∷◌, string_eq, nat_eq, ◌==◌, ◌-◌, ◌≡◌,
  refl, ap, ◌∙◌, inl, inr, Bool-cases, if◌then◌else◌, Result, ok, raise,
}
use py_qgis_server.Prelude.Actions.{bind_result, catch_result}
use py_qgis_server.Http.{Outcome, account, emit, handle_request, relay, rescue}
use py_qgis_server.Http.Calls.{
  Answer, Error, Exchange, Fetch, call, gateway_error, other_error, send_error, timeout_error,
}
use py_qgis_server.Http.Services.{Context, get_text}
use py_qgis_server.Http.Writes.{
  add, outcome_of, relay-Makes, relay_calls, response_result, result_of, with_outcome,
}
use py_qgis_server.Http.Views.{
  View, answer_view, failure, fresh, see, view, view-append, view_relay,
}
use py_qgis_server.Http.Counting.{IsReadable, account-Accounts, attempt-relay}

-- What is counted and what is seen, by what comes from the worker.
abbrev pub ended : Answer → Option Error → Option (ℕ × View)
ended a none = some (a.status, answer_view a)
ended a (some timeout_error) = some (504, answer_view a)
ended a (some gateway_error) = some (502, answer_view a)
ended a (some other_error) = none

abbrev pub expected : Result Error Answer → Option (ℕ × View)
expected (raise timeout_error) = some (504, failure 504)
expected (raise gateway_error) = some (502, failure 502)
expected (raise other_error) = none
expected (ok a) = ended a (if a.status == 206 then a.ending else none)

-- How a request ends that comes to `expected`. An exception of another kind is raised after the request
-- has been counted. Otherwise the response has been made, the counts are right, and the handler ends
-- as the emission of a report with that status does, for the request as it is at the end.
abbrev pub Handled :
    Context → Exchange → Result Error (Unit {0}) × Exchange → Option (ℕ × View) → Type 0
Handled c s r none =
    (r.0 ≡ raise other_error)
    × (r.1.num_requests ≡ suc s.num_requests)
    × (r.1.num_errors ≡ s.num_errors)
Handled c s r (some (status, v)) =
    ((o : Outcome) × (t : Exchange) × (o.0 ≡ status)
      × (t.request ≡ r.1.request)
      × (r.0 ≡ (emit c o t).0))
    × (view fresh r.1.calls ≡ v)
    × (r.1.num_requests ≡ suc s.num_requests)
    × (r.1.num_errors ≡ s.num_errors + (if leb 500 status then 1 else 0))

accounted :
    (c : Context) (s t : Exchange) (o : Outcome) (v : View)
    → view fresh t.calls ≡ v
    → t.num_requests ≡ suc s.num_requests
    → t.num_errors ≡ s.num_errors
    → Handled c s (account c o t) (some (o.0, v))
accounted c s t o v h k l =
    let (a, b, d, e) = account-Accounts c o t in
    (
      (o, a.0, refl, a.1, a.2),
      ap (view fresh) b ∙ h,
      d ∙ k,
      e ∙ ap (λ n. n + (if leb 500 o.0 then 1 else 0)) l,
    )

-- From the end of the `try` on.
abbrev settle : Context → Result Error Outcome × Exchange → Result Error (Unit {0}) × Exchange
settle c r = bind_result (catch_result r (rescue c)) (account c)

-- An error that is sent after the calls `t.calls`.
failed :
    (c : Context) (s t : Exchange) (n time : ℕ) (reason : String) (v : View)
    → see (view fresh t.calls) (send_error n reason) ≡ v
    → t.num_requests ≡ suc s.num_requests
    → t.num_errors ≡ s.num_errors
    → Handled c s (account c (n, time, none) (add (send_error n reason ∷ []) t)) (some (n, v))
failed c s t n time reason v h k l =
    accounted c s (add (send_error n reason ∷ []) t) (n, time, none) v
      (view-append fresh t.calls (send_error n reason ∷ []) ∙ h) k l

-- The response had been started: an error does not change what is seen.
kept :
    (v w : View) (n : ℕ) (reason : String)
    → v ≡ w
    → w.started ≡ true
    → see v (send_error n reason) ≡ w
kept v w n reason h k = rw h (rw k refl)

settle-some :
    (c : Context) (s t : Exchange) (a : Answer) (x : Error)
    → view fresh t.calls ≡ answer_view a
    → (answer_view a).started ≡ true
    → t.num_requests ≡ suc s.num_requests
    → t.num_errors ≡ s.num_errors
    → Handled c s (settle c (raise x, t)) (ended a (some x))
unfolding rescue call
settle-some c s t a timeout_error h q k l =
    failed c s t 504 (c.ended - c.started) "Request timeout error" (answer_view a)
      (kept (view fresh t.calls) (answer_view a) 504 "Request timeout error" h q) k l
settle-some c s t a gateway_error h q k l =
    failed c s t 502 (c.ended - c.started) "Backend request error" (answer_view a)
      (kept (view fresh t.calls) (answer_view a) 502 "Backend request error" h q) k l
settle-some c s t a other_error h q k l = (refl, k, l)

settle-raise :
    (c : Context) (s t : Exchange) (x : Error)
    → view fresh t.calls ≡ fresh
    → t.num_requests ≡ suc s.num_requests
    → t.num_errors ≡ s.num_errors
    → Handled c s (settle c (raise x, t)) (expected (raise x))
unfolding rescue call
settle-raise c s t timeout_error h k l =
    failed c s t 504 (c.ended - c.started) "Request timeout error" (failure 504) (rw h refl) k l
settle-raise c s t gateway_error h k l =
    failed c s t 502 (c.ended - c.started) "Backend request error" (failure 502) (rw h refl) k l
settle-raise c s t other_error h k l = (refl, k, l)

settle-ending :
    (c : Context) (s t : Exchange) (a : Answer) (ending : Option Error)
    → view fresh t.calls ≡ answer_view a
    → (answer_view a).started ≡ true
    → t.num_requests ≡ suc s.num_requests
    → t.num_errors ≡ s.num_errors
    → Handled c s (settle c (with_outcome (outcome_of c a) (result_of ending), t)) (ended a ending)
settle-ending c s t a none h q k l = accounted c s t (outcome_of c a) (answer_view a) h k l
settle-ending c s t a (some x) h q k l = settle-some c s t a x h q k l

settle-ok :
    (c : Context) (s t : Exchange) (a : Answer)
    → view fresh t.calls ≡ answer_view a
    → t.num_requests ≡ suc s.num_requests
    → t.num_errors ≡ s.num_errors
    → Handled c s
        (settle c (with_outcome (outcome_of c a) (response_result a), t))
        (expected (ok a))
settle-ok c s t a h k l = elim (Bool-cases (a.status == 206)) [
  | inl e ↦
      let q : (answer_view a).started ≡ true = rw e refl in
      let r = settle-ending c s t a a.ending h q k l in
      let f : response_result a ≡ result_of a.ending = rw e refl in
      let g : expected (ok a) ≡ ended a a.ending = rw e refl in rw f (rw g r)
  | inr e ↦
      let f : response_result a ≡ ok tt = rw e refl in
      let i : (if a.status == 206 then a.ending else none) ≡ none = rw e refl in
      let g : expected (ok a) ≡ some (a.status, answer_view a) = ap (ended a) i in
      rw f (rw g (accounted c s t (outcome_of c a) (answer_view a) h k l))
]

settle-expected :
    (c : Context) (s t : Exchange) (a : Result Error Answer)
    → t.calls ≡ []
    → t.num_requests ≡ suc s.num_requests
    → t.num_errors ≡ s.num_errors
    → Handled c s (settle c (bind_result (a, t) (relay c))) (expected a)
settle-expected c s t (raise x) h k l = settle-raise c s t x (rw h refl) k l
settle-expected c s t (ok a) h k l =
    let ks = relay_calls c (get_text "Origin" t.request.headers) a in
    let start : view fresh t.calls ≡ fresh = rw h refl in
    rw (relay-Makes c a t) (
      settle-ok c s (add ks t) a
        (view-append fresh t.calls ks
          ∙ ap (λ v. view v ks) start
          ∙ view_relay c (get_text "Origin" t.request.headers) a)
        k l)

-- A request whose arguments can be read, and whose response is still empty. With an answer of the
-- worker, or parts of it and a time-out or a gateway error, the response that the handler makes has the
-- status of the answer (200 for 206) and all the parts that came, in order, or for 509 is an error with
-- that status; without an answer it is an error 504 or 502. The request is counted once, and an error
-- exactly if the status of the answer, or 504 or 502 after such an error, is 500 or more; then the
-- handler ends as the report with that status does: it raises if the monitor does, or if an argument of
-- the report cannot be read. Any other exception is raised again, with the request counted and no error.
pub handle_request-Handled :
    (c : Context) (method : String) (s : Exchange) (a : Result Error Answer)
    → s.calls ≡ []
    → IsReadable c
    → ((f : Fetch) → c.fetch f ≡ a)
    → Handled c s (handle_request c method s) (expected a)
unfolding handle_request
handle_request-Handled c method s a h readable g =
    let (r, e) = attempt-relay c method s a readable g in
    rw e (
      settle-expected c s (record s { request = r; num_requests = suc s.num_requests }) a h refl
        refl)
