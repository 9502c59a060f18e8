-- ===== src/Delivery/Served.antt =====
-- What the HTTP client gets of what QGIS wrote.
use mathlib.Core.List.{append_assoc}
use mathlib.Core.Path.{subst}
use py_qgis_server.Prelude.{
  ℕ, suc, String, ◌≡◌, refl, sym, ap, ◌<◌, ◌∙◌, Bool, true, false, Bytes, Option, some, List, [],
  ◌∷◌, ◌++◌, string_eq, Result, ok, if◌then◌else◌, arith, not,
}
use py_qgis_server.Client
use py_qgis_server.Client.{Handlers, Message, fetch_more}
use py_qgis_server.Client.Isolation.{own}
use py_qgis_server.Delivery.{fetched, framed, watch}
use py_qgis_server.Delivery.Objects.{object, watch-object}
use py_qgis_server.Delivery.Whole.{object-messages}
use py_qgis_server.Dict.{get}
use py_qgis_server.Http.{Outcome, emit, handle_request}
use py_qgis_server.Http.Counting.{IsReadable}
use py_qgis_server.Http.Calls.{Error, Exchange, Fetch}
use py_qgis_server.Http.Relay.{Handled, expected, handle_request-Handled}
use py_qgis_server.Http.Services.{Context}
use py_qgis_server.Http.Views
use py_qgis_server.Http.Views.{View, answer_view, fresh, view}
use py_qgis_server.Messages.{Content, HeaderValue, Headers, Metadata}
use py_qgis_server.Stream.{concat, messages, null, receive_all, received}
use py_qgis_server.Stream.Chunked.{
  concat-snoc, fetch_more-ended, listening, messages-chunked, receive-chunked, with_more,
}
use py_qgis_server.Text.{Text}

-- A request that was served: the client of the HTTP server sees status 200 and the body `b`, and
-- nothing is counted as an error.
abbrev pub Served : Exchange → Result Error (Unit {0}) × Exchange → Content → Type 0
Served s r b =
    (r.0 ≡ ok tt)
    × ((view fresh r.1.calls).status ≡ 200)
    × ((view fresh r.1.calls).body ≡ b)
    × (r.1.num_requests ≡ suc s.num_requests)
    × (r.1.num_errors ≡ s.num_errors)

concat-concat : (bs : List Content) → Views.concat bs ≡ concat bs
concat-concat [] = refl
concat-concat (b ∷ bs) = ap (λ t. b ++ t) (concat-concat bs)

Served_of_Handled :
    (c : Context) (s : Exchange) (r : Result Error (Unit {0}) × Exchange) (status : ℕ) (b : Content)
    (started : Bool)
    → status < 500
    → ((o : Outcome) (t : Exchange) → (emit c o t).0 ≡ ok tt)
    → Handled c s r (some (status, record { status = 200; body = b; started = started }))
    → Served s r b
Served_of_Handled c s r status b started small quiet ((o, t, _, _, ended), seen, requests, errors) =
    (
      ended ∙ quiet o t,
      ap (λ v. v.status) seen,
      ap (λ v. v.body) seen,
      requests,
      ground (arith, errors),
    )

status_small : (parts : List Content) → (if null parts then 200 else 206) < 500
status_small [] = omega arith
status_small (b ∷ bs) = omega arith

module _ (points : HeaderValue → Text) (message : Content) (meta : Option Metadata)
    (hs : Headers) where
  fetched-listening :
      (b : Content) (bs : List Content)
      → expected (
          fetched points
            (record (listening hs meta b (with_more bs ++ ([], false) ∷ [])) { has_more = false }))
        ≡ some (206, record { status = 200; body = b ++ Views.concat bs; started = true })
  unfolding fetched
  fetched-listening b bs = rw (fetch_more-ended bs) refl

  fetched-received :
      (parts : List Content) (last : Content)
      → expected (fetched points (received message meta 200 hs parts last))
        ≡ some (
          if null parts then 200 else 206,
          record { status = 200; body = concat parts ++ last; started = not (null parts) },
        )
  unfolding fetched messages receive_all fetch_more
  fetched-received [] [] = refl
  fetched-received [] (x ∷ last) = refl
  fetched-received (b ∷ bs) last =
      ap (λ h. expected (fetched points h))
        (ap (λ ps. receive_all ps Client.init) (messages-chunked message meta hs b bs last)
          ∙ receive-chunked hs meta b (bs ++ last ∷ []))
      ∙ fetched-listening b (bs ++ last ∷ [])
      ∙ ap (λ t. some (206, record { status = 200; body = t; started = true }))
          (ap (λ t. b ++ t) (concat-concat (bs ++ last ∷ []) ∙ concat-snoc bs last)
            ∙ sym (append_assoc b (concat bs) last))

  -- Whatever QGIS writes and however it cuts it in parts, the client of the HTTP server gets it whole
  -- and in order, with status 200 and without an error being counted: for an answer of the normal
  -- status 200 whose sends succeed, and whatever other messages the poll loop reads among those of
  -- this request, which is in the table and got no message before. The arguments of the request can be
  -- read, and the monitor, if there is one, takes the report.
  pub handle_request-Served :
      (parts : List Content) (last : Content) (id : Bytes) (ms : List Message) (table : Handlers)
      (c : Context) (method : String) (s : Exchange)
      → get id table ≡ some Client.init
      → own id ms ≡ framed id (messages message meta 200 hs parts last)
      → ((f : Fetch) → c.fetch f ≡ fetched points (watch id ms table Client.init))
      → s.calls ≡ []
      → IsReadable c
      → ((o : Outcome) (t : Exchange) → (emit c o t).0 ≡ ok tt)
      → Served s (handle_request c method s) (concat parts ++ last)
  handle_request-Served parts last id ms table c method s there mine found empty readable quiet =
      let object_is : watch id ms table Client.init ≡ received message meta 200 hs parts last =
        watch-object id ms table Client.init there
        ∙ ap (object Client.init) mine
        ∙ object-messages id meta hs message parts last in
      Served_of_Handled c s (handle_request c method s) (if null parts then 200 else 206)
        (concat parts ++ last) (not (null parts)) (status_small parts) quiet
        (subst (Handled c s (handle_request c method s))
          (ap (λ h. expected (fetched points h)) object_is ∙ fetched-received parts last)
          (handle_request-Handled c method s (fetched points (watch id ms table Client.init)) empty
            readable found))
