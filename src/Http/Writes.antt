-- ===== src/Http/Writes.antt =====
-- The calls that the parts of `handle_request` make of the HTTP server.
use py_qgis_server.Prelude.{
  ◌-◌, String, Bool, true, false, Option, none, some, List, [], ◌∷◌, ◌++◌, string_eq, nat_eq, ◌==◌,
  ◌≡◌, refl, sym, ap, ◌∙◌, inl, inr, Bool-cases, if◌then◌else◌, Result, ok, raise,
}
use mathlib.Core.List.{append_assoc, append-nil}
use py_qgis_server.Prelude.Actions.{bind_result, pure, ◌>>=◌, ◌>>◌}
use py_qgis_server.Dict.{Dict}
use py_qgis_server.Http.{Outcome, relay, relay_chunks, respond, set_headers, write_data}
use py_qgis_server.Http.Calls.{
  Answer, Call, Error, Exchange, call, flush, send_error, set_header, set_status, write,
}
use py_qgis_server.Http.Headers.{set_access_control_headers}
use py_qgis_server.Http.Services.{Context, get_text, is_given}
use py_qgis_server.Text.{Text}

abbrev pub header_calls : Dict String Text → List Call
header_calls [] = []
header_calls ((k, v) ∷ d) = set_header k v ∷ header_calls d

abbrev pub chunk_calls : List Text → List Call
chunk_calls [] = []
chunk_calls (t ∷ ts) = write t ∷ (flush ∷ chunk_calls ts)

abbrev pub result_of : Option Error → Result Error (Unit {0})
result_of none = ok tt
result_of (some x) = raise x

abbrev pub data_calls : Text → List Call
data_calls [] = []
data_calls (c ∷ s) = write (c ∷ s) ∷ []

abbrev pub origin_calls : Context → Text → List Call
origin_calls c origin =
    if is_given origin
    then (if c.cross_origin
        then set_header "Access-Control-Allow-Origin" (42 ∷ []) ∷ []
        else (set_header "Access-Control-Allow-Origin" origin
            ∷ (set_header "Vary" (79 ∷ 114 ∷ 105 ∷ 103 ∷ 105 ∷ 110 ∷ []) ∷ [])))
    else []

abbrev pub response_calls : Answer → List Call
response_calls a =
    if a.status == 206
    then set_status 200 ∷ (data_calls a.body ++ (flush ∷ chunk_calls a.chunks))
    else if a.status == 509
    then send_error a.status "Server busy, please retry later" ∷ []
    else set_status a.status ∷ data_calls a.body

abbrev pub response_result : Answer → Result Error (Unit {0})
response_result a = if a.status == 206 then result_of a.ending else ok tt

abbrev pub add : List Call → Exchange → Exchange
add ks s = record s { calls = s.calls ++ ks }

-- An action that makes these calls, with this result, and does nothing else.
abbrev pub Makes :
    {A : Type 0} → (Exchange → Result Error A × Exchange) → Result Error A → List Call → Type 0
Makes m r ks = (s : Exchange) → m s ≡ (r, add ks s)

add-add : (ks js : List Call) (s : Exchange) → add js (add ks s) ≡ add (ks ++ js) s
add-add ks js s = ap (λ l. record s { calls = l }) (append_assoc s.calls ks js)

add_none : (s : Exchange) → s ≡ add [] s
add_none s = ap (λ l. record s { calls = l }) (sym (append-nil s.calls))

then_add :
    {A : Type 0} (m : Exchange → Result Error A × Exchange) (r : Result Error A) (ks js : List Call)
    → Makes m r js
    → (s : Exchange) → m (add ks s) ≡ (r, add (ks ++ js) s)
then_add m r ks js h s = h (add ks s) ∙ ap (λ t. (r, t)) (add-add ks js s)

-- One action after another makes the calls of both.
pub Makes-bind :
    {A B : Type 0} (m : Exchange → Result Error A × Exchange)
    (k : A → Exchange → Result Error B × Exchange) (a : A) (r : Result Error B) (ks js : List Call)
    → Makes m (ok a) ks
    → Makes (k a) r js
    → Makes (m >>= k) r (ks ++ js)
Makes-bind m k a r ks js h g s = ap (λ t. bind_result t k) (h s) ∙ then_add (k a) r ks js g s

call-Makes : (k : Call) → Makes (call k) (ok tt) (k ∷ [])
unfolding call
call-Makes k s = refl

set_headers-Makes : (d : Dict String Text) → Makes (set_headers d) (ok tt) (header_calls d)
unfolding set_headers
set_headers-Makes [] = λ s. ap (λ t. (ok tt, t)) (add_none s)
set_headers-Makes ((k, v) ∷ d) =
    Makes-bind (call (set_header k v)) (λ u. set_headers d) tt (ok tt) (set_header k v ∷ [])
      (header_calls d) (call-Makes (set_header k v)) (set_headers-Makes d)

write_data-Makes : (t : Text) → Makes (write_data t) (ok tt) (data_calls t)
unfolding write_data
write_data-Makes [] = λ s. ap (λ t. (ok tt, t)) (add_none s)
write_data-Makes (c ∷ t) = λ s. refl

relay_chunks-Makes :
    (ts : List Text) (ending : Option Error)
    → Makes (relay_chunks ts ending) (result_of ending) (chunk_calls ts)
unfolding relay_chunks
relay_chunks-Makes [] none = λ s. ap (λ t. (ok tt, t)) (add_none s)
relay_chunks-Makes [] (some x) = λ s. ap (λ t. (raise x, t)) (add_none s)
relay_chunks-Makes (t ∷ ts) ending =
    Makes-bind (call (write t)) (λ u. call flush >> relay_chunks ts ending) tt (result_of ending)
      (write t ∷ []) (flush ∷ chunk_calls ts) (call-Makes (write t))
      (Makes-bind (call flush) (λ u. relay_chunks ts ending) tt (result_of ending) (flush ∷ [])
        (chunk_calls ts) (call-Makes flush) (relay_chunks-Makes ts ending))

origin-Makes :
    (c : Context) (s : Exchange)
    → (b : Bool) × (set_access_control_headers c s
        ≡ (ok b, add (origin_calls c (get_text "Origin" s.request.headers)) s))
unfolding set_access_control_headers
origin-Makes c s = elim (Bool-cases (is_given (get_text "Origin" s.request.headers))) [
  | inl h ↦ elim (Bool-cases c.cross_origin) [
    | inl k ↦ (true, rw (h, k) refl)
    | inr k ↦ (
      true,
      rw (h, k)
          (ap (λ t. (ok true, t))
            (add-add
              (set_header "Access-Control-Allow-Origin" (get_text "Origin" s.request.headers) ∷ [])
              _ s)),
    )
  ]
  | inr h ↦ (false, rw h (ap (λ t. (ok false, t)) (add_none s)))
]

partial-Makes :
    (a : Answer)
    → Makes
        (call (set_status 200)
          >> (write_data a.body >> (call flush >> relay_chunks a.chunks a.ending)))
        (result_of a.ending)
        (set_status 200 ∷ (data_calls a.body ++ (flush ∷ chunk_calls a.chunks)))
partial-Makes a =
    Makes-bind (call (set_status 200)) _ tt (result_of a.ending) (set_status 200 ∷ []) _
      (call-Makes (set_status 200))
      (Makes-bind (write_data a.body) _ tt (result_of a.ending) (data_calls a.body) _
        (write_data-Makes a.body)
        (Makes-bind (call flush) _ tt (result_of a.ending) (flush ∷ []) _ (call-Makes flush)
          (relay_chunks-Makes a.chunks a.ending)))

respond-Makes : (a : Answer) → Makes (respond a) (response_result a) (response_calls a)
unfolding respond
respond-Makes a s = elim (Bool-cases (a.status == 206)) [
  | inl h ↦ rw h (partial-Makes a s)
  | inr h ↦ elim (Bool-cases (a.status == 509)) [
    | inl k ↦ rw (h, k) refl
    | inr k ↦
        rw (h, k)
          (Makes-bind (call (set_status a.status)) (λ u. write_data a.body) tt (ok tt)
            (set_status a.status ∷ []) (data_calls a.body) (call-Makes (set_status a.status))
            (write_data-Makes a.body) s)
  ]
]

abbrev pub relay_calls : Context → Text → Answer → List Call
relay_calls c origin a = (header_calls a.headers ++ origin_calls c origin) ++ response_calls a

abbrev pub outcome_of : Context → Answer → Outcome
outcome_of c a =
    (a.status, (if a.status == 206 then c.ended else c.answered) - c.started, a.metadata)

-- A result with the outcome in place of its value.
abbrev pub with_outcome : Outcome → Result Error (Unit {0}) → Result Error Outcome
with_outcome o (ok u) = ok o
with_outcome o (raise x) = raise x

then_outcome :
    (o : Outcome) (r : Result Error (Unit {0})) (s : Exchange)
    → bind_result (r, s) (λ u. pure o) ≡ (with_outcome o r, s)
then_outcome o (ok u) s = refl
then_outcome o (raise x) s = refl

pub relay-Makes :
    (c : Context) (a : Answer) (s : Exchange)
    → relay c a s ≡ (
      with_outcome (outcome_of c a) (response_result a),
      add (relay_calls c (get_text "Origin" s.request.headers) a) s,
    )
unfolding relay
relay-Makes c a s =
    let origin = get_text "Origin" s.request.headers in
    let s1 = add (header_calls a.headers) s in
    let s2 = add (origin_calls c origin) s1 in
    let (b, e) = origin-Makes c s1 in
    let same : s2 ≡ add (header_calls a.headers ++ origin_calls c origin) s =
      add-add (header_calls a.headers) (origin_calls c origin) s in
    rw (set_headers-Makes a.headers s) (
      rw e (
        rw (respond-Makes a s2) (
          then_outcome (outcome_of c a) (response_result a) (add (response_calls a) s2)
          ∙ ap (λ t. (with_outcome (outcome_of c a) (response_result a), t))
              (ap (add (response_calls a)) same
                ∙ add-add (header_calls a.headers ++ origin_calls c origin) (response_calls a) s))))
