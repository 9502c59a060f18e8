-- ===== src/Http/Views.antt =====
-- What the client of the HTTP server gets, as the calls of the handler's methods give it.
use py_qgis_server.Prelude.{
  ℕ, String, Bool, true, false, List, [], ◌∷◌, ◌++◌, string_eq, nat_eq, ◌==◌, ==_iff, ◌≡◌, refl,
  sym, ap, ◌∙◌, inl, inr, Bool-cases, if◌then◌else◌,
}
use mathlib.Core.List.{append_assoc, append-nil}
use py_qgis_server.Dict.{Dict}
use py_qgis_server.Http.Calls.{
  Answer, Call, finish, flush, send_error, set_header, set_status, write,
}
use py_qgis_server.Http.Services.{Context, is_given}
use py_qgis_server.Http.Writes.{
  chunk_calls, data_calls, header_calls, origin_calls, relay_calls, response_calls,
}
use py_qgis_server.Text.{Text}

-- The response as it is sent: an error replaces it unless a part of it has been sent already, and
-- then only ends it.
pub record View : Type 0 where
  pub status : ℕ
  pub body : Text
  pub started : Bool

abbrev pub see : View → Call → View
see v (set_header k t) = v
see v (set_status n) = record v { status = n }
see v (write t) = record v { body = v.body ++ t }
see v flush = record v { started = true }
see v finish = v
see v (send_error n reason) =
    if v.started then v else record { status = n; body = []; started = true }

abbrev pub view : View → List Call → View
view v [] = v
view v (k ∷ ks) = view (see v k) ks

abbrev pub fresh : View
fresh = record { status = 200; body = []; started = false }

pub view-append : (v : View) (ks js : List Call) → view v (ks ++ js) ≡ view (view v ks) js
view-append v [] js = refl
view-append v (k ∷ ks) js = view-append (see v k) ks js

abbrev pub concat : List Text → Text
concat [] = []
concat (t ∷ ts) = t ++ concat ts

view_headers : (v : View) (d : Dict String Text) → view v (header_calls d) ≡ v
view_headers v [] = refl
view_headers v ((k, t) ∷ d) = view_headers v d

view_origin : (c : Context) (v : View) (origin : Text) → view v (origin_calls c origin) ≡ v
view_origin c v origin = elim (Bool-cases (is_given origin)) [
  | inl h ↦ elim (Bool-cases c.cross_origin) [ inl k ↦ rw (h, k) refl | inr k ↦ rw (h, k) refl ]
  | inr h ↦ rw h refl
]

view_data : (v : View) (t : Text) → view v (data_calls t) ≡ record v { body = v.body ++ t }
view_data v [] = ap (λ b. record v { body = b }) (sym (append-nil v.body))
view_data v (c ∷ t) = refl

abbrev partial : Text → View
partial t = record { status = 200; body = t; started = true }

view_chunks :
    (t : Text) (ts : List Text) → view (partial t) (chunk_calls ts) ≡ partial (t ++ concat ts)
view_chunks t [] = ap partial (sym (append-nil t))
view_chunks t (u ∷ ts) = view_chunks (t ++ u) ts ∙ ap partial (append_assoc t u (concat ts))

abbrev pub failure : ℕ → View
failure n = record { status = n; body = []; started = true }

-- What an answer should look like: all its parts, or an error.
abbrev pub answer_view : Answer → View
answer_view a =
    if a.status == 206
    then partial (a.body ++ concat a.chunks)
    else if a.status == 509
    then failure 509
    else record { status = a.status; body = a.body; started = false }

view_response : (a : Answer) → view fresh (response_calls a) ≡ answer_view a
view_response a = elim (Bool-cases (a.status == 206)) [
  | inl h ↦ rw h (
      view-append fresh (data_calls a.body) (flush ∷ chunk_calls a.chunks)
      ∙ ap (λ v. view v (flush ∷ chunk_calls a.chunks)) (view_data fresh a.body)
      ∙ view_chunks a.body a.chunks)
  | inr h ↦ elim (Bool-cases (a.status == 509)) [
    | inl k ↦ let e : a.status ≡ 509 = (==_iff a.status 509).0 k in rw (h, k) (ap failure e)
    | inr k ↦ rw (h, k) (view_data (record fresh { status = a.status }) a.body)
  ]
]

pub view_relay :
    (c : Context) (origin : Text) (a : Answer) → view fresh (relay_calls c origin a) ≡ answer_view a
view_relay c origin a =
    view-append fresh (header_calls a.headers ++ origin_calls c origin) (response_calls a)
    ∙ ap (λ v. view v (response_calls a))
        (view-append fresh (header_calls a.headers) (origin_calls c origin)
          ∙ ap (λ v. view v (origin_calls c origin)) (view_headers fresh a.headers)
          ∙ view_origin c fresh origin)
    ∙ view_response a
