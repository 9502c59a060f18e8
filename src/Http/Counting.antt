-- ===== src/Http/Counting.antt =====
-- What is counted at the end of a request, and what the `try` of `handle_request` comes to.
use py_qgis_server.Prelude.{
  suc, ◌+◌, leb, String, Option, none, some, [], ◌∷◌, ◌++◌, string_eq, nat_eq, ◌≡◌, refl, sym, ◌∙◌,
  inl, inr, Bool-cases, if◌then◌else◌, Bool, false, ◌&&◌, Result, Result-cases, ok, raise, arith,
}
use py_qgis_server.Prelude.Actions.{bind_result}
use py_qgis_server.Dict.{Dict}
use py_qgis_server.Http.{
  Outcome, account, attempt, emit, fetch_of, forwarded_headers, has_parameters, relay, report,
  request_of, send_report,
}
use py_qgis_server.Http.Headers.{backend_headers, other_headers, put_given}
use py_qgis_server.Http.Calls.{Parameter, Answer, Error, Exchange, Fetch, Request}
use py_qgis_server.Http.Proxy.{ends_in_slash, forwarded_request, full_url, given_url, proxy_url}
use py_qgis_server.Http.Services.{Context, encode_arguments, get_monitor_params, is_given}
use py_qgis_server.Text.{Text}

-- What the accounting of an outcome does: it ends as the emission of the report does.
abbrev pub Accounts : Context → Outcome → Exchange → Result Error (Unit {0}) × Exchange → Type 0
Accounts c o t r =
    ((t' : Exchange) × (t'.request ≡ r.1.request) × (r.0 ≡ (emit c o t').0))
    × (r.1.calls ≡ t.calls)
    × (r.1.num_requests ≡ t.num_requests)
    × (r.1.num_errors ≡ t.num_errors + (if leb 500 o.0 then 1 else 0))

-- Nothing that a client sees, and no count, has changed.
abbrev Same : Exchange → Exchange → Type 0
Same t t' =
    (t'.calls ≡ t.calls)
    × (t'.num_requests ≡ t.num_requests)
    × (t'.num_errors ≡ t.num_errors)
    × (t'.request ≡ t.request)

send_report-Same :
    (c : Context) (o : Outcome) (p : Result Error (Option (Dict String Parameter))) (t : Exchange)
    → Same t (send_report c o p t).1
unfolding send_report
send_report-Same c o (raise x) t = (refl, refl, refl, refl)
send_report-Same c o (ok none) t = (refl, refl, refl, refl)
send_report-Same c o (ok (some params)) t =
    elim (Result-cases (c.publish t.request (report o params))) [
      | inl (x, e) ↦ rw (send_report, e) (refl, refl, refl, refl)
      | inr (done, e) ↦ rw (send_report, e) (refl, refl, refl, refl)
    ]

emit-Same : (c : Context) (o : Outcome) (t : Exchange) → Same t (emit c o t).1
unfolding emit
emit-Same c o t = elim (Bool-cases c.has_monitor) [
  | inl h ↦ rw h (send_report-Same c o (get_monitor_params c t.request) t)
  | inr h ↦ rw h (refl, refl, refl, refl)
]

pub account-Accounts : (c : Context) (o : Outcome) (t : Exchange) → Accounts c o t (account c o t)
unfolding account
account-Accounts c o t = elim (Bool-cases (leb 500 o.0)) [
  | inl h ↦
      let u : Exchange = record t { num_errors = suc t.num_errors } in
      let (b, d, e, k) = emit-Same c o u in rw h ((u, sym k, refl), b, d, e ∙ omega arith)
  | inr h ↦ let (b, d, e, k) = emit-Same c o t in rw h ((t, sym k, refl), b, d, e ∙ omega arith)
]

-- Every argument that the handler reads is UTF-8.
abbrev pub IsReadable : Context → Type 0
IsReadable c = (r : Request) (name : String) → (v : Option Text) × (c.get_argument r name ≡ ok v)

has_parameters-ok :
    (c : Context) (s : Exchange) (v : Option Text)
    → c.get_argument s.request "SERVICE" ≡ ok v
    → (b : Bool) × (has_parameters c s ≡ ok b)
unfolding has_parameters
has_parameters-ok c s none h = (false, rw (has_parameters, h) refl)
has_parameters-ok c s (some v) h = (is_given v && s.has_body_arguments, rw (has_parameters, h) refl)

request_of-ok :
    (c : Context) (query proxy : Text) (method : String) (s : Exchange)
    → IsReadable c
    → (f : Fetch) × (request_of c query proxy method s ≡ (ok f, s))
unfolding request_of backend_headers
request_of-ok c query proxy method s h =
    let (path, e) = h s.request "MAP" in
    let (v, g) = h s.request "SERVICE" in
    let (b, k) = has_parameters-ok c s v g in
    let headers =
      other_headers c s.request
        (put_given "X-Map-Location" path (forwarded_headers c proxy s.request)) in
    (fetch_of c query method s headers b, rw (request_of, backend_headers, e, k) refl)

proxy_url-ok :
    (c : Context) (s : Exchange)
    → (u : Text) × (r : Request) × (proxy_url c s ≡ (ok u, record s { request = r }))
unfolding proxy_url
proxy_url-ok c s =
    let given = given_url c s.request in
    elim (Bool-cases c.http_proxy) [
      | inl h ↦ elim (Bool-cases (is_given given)) [
        | inl k ↦
            (if ends_in_slash given then given else given ++ 47 ∷ [], s.request, rw (h, k) refl)
        | inr k ↦
            (full_url (forwarded_request s.request), forwarded_request s.request, rw (h, k) refl)
      ]
      | inr h ↦ (full_url s.request, s.request, rw h refl)
    ]

pub attempt-relay :
    (c : Context) (method : String) (s : Exchange) (a : Result Error Answer)
    → IsReadable c
    → ((f : Fetch) → c.fetch f ≡ a)
    → (r : Request) × (attempt c method s
        ≡ bind_result (a, record s { request = r; num_requests = suc s.num_requests }) (relay c))
unfolding attempt
attempt-relay c method s a readable h =
    let (u, r, e) = proxy_url-ok c s in
    let (f, g) =
      request_of-ok c (encode_arguments c s.request) u method (record s { request = r }) readable in
    (r, rw e (rw g (rw h refl)))
