-- ===== src/QgisRequest/Refusals.antt =====
-- What a request whose project cannot be had leads to: a refusal by an HTTP status, or an exception
-- that ends the worker.
use py_qgis_server.Prelude.{
  ℕ, String, true, false, Option, none, some, [], ◌∷◌, ◌++◌, string_eq, ◌≡◌, refl, Result, ok,
  raise,
}
use py_qgis_server.Prelude.Actions.{bind_result}
use py_qgis_server.Cache.{Manager, lookup}
use py_qgis_server.Cache.Urls
use py_qgis_server.Messages.{Content, Payload, reply}
use py_qgis_server.QgisRequest.{
  always_refresh, answer_error, handle_qgis_request, prepare_project, refusal, rescue,
  serve_project,
}
use py_qgis_server.QgisRequest.State.{Context, Error, Session, cache_error}
use py_qgis_server.Response.{send_error}
use py_qgis_server.Worker.{send, send_header, write}

-- The HTTP status for a project that cannot be had.
abbrev pub status_of : Urls.Error → Option ℕ
status_of Urls.Error.path_not_allowed = some 403
status_of Urls.Error.file_not_found = some 404
status_of Urls.Error.unreadable_resource = some 422
status_of Urls.Error.strict_checking = some 422
status_of x = none

-- The request was answered by the status alone, or, without a status, by nothing at all.
abbrev pub Refused :
    {P : Type 0} → Session P → Urls.Error → Option ℕ → Result Error (Unit {0}) × Session P → Type 0
Refused s x none r =
    (r.0 ≡ raise (cache_error x))
    × (r.1.response.handler.sent ≡ s.response.handler.sent)
    × (r.1.handled ≡ s.handled)
Refused s x (some code) r =
    (r.0 ≡ ok tt)
    × (r.1.handled ≡ s.handled)
    × (body : Content) × (r.1.response.handler.sent
        ≡ s.response.handler.sent ++ reply code s.response.handler.headers body none ∷ [])

module _ {P : Type 0} (c : Context P) (location : String) (s : Session P) where
  prepare_raises :
      (scheme request_id : Option String) (x : Urls.Error)
      → (lookup c.urls c.services location (always_refresh c) s.cache).0 ≡ raise x
      → prepare_project c scheme location request_id s ≡ (
        raise (cache_error x),
        record s { cache = (lookup c.urls c.services location (always_refresh c) s.cache).1 },
      )
  unfolding prepare_project
  prepare_raises scheme request_id x h = rw h refl

  abbrev Takes : Type 0
  Takes = (p : Payload) → c.wire s.response.handler.sent p ≡ true

  -- `sendError` before the header was sent, on a socket that takes the answer.
  sent_error :
      (code : ℕ) (message : Content)
      → s.response.handler.header_written ≡ false
      → Takes
      → send_error c.wire code message s.response ≡ (
        ok tt,
        record s.response {
          finished = true;
          handler = record s.response.handler {
            status_code = code;
            header_written = true;
            sent =
                s.response.handler.sent ++ reply code s.response.handler.headers message none ∷ [];
          };
        },
      )
  unfolding send_error send send_header write
  sent_error code message fresh up =
      rw (fresh, up (reply code s.response.handler.headers message none)) refl

  answered :
      (x : Urls.Error) (code : ℕ) (message : String) (m : Manager P)
      → s.response.handler.header_written ≡ false
      → Takes
      → Refused s x
          (some code)
          (bind_result (answer_error c code message (record s { cache = m })) (serve_project c))
  unfolding answer_error serve_project
  answered x code message m fresh up =
      rw (sent_error code (c.encode message) fresh up) (refl, refl, c.encode message, refl)

  rescued :
      (x : Urls.Error) (m : Manager P)
      → s.response.handler.header_written ≡ false
      → Takes
      → Refused s x (status_of x) (
          bind_result
            (rescue c location (cache_error x) (record s { cache = m }))
            (serve_project c))
  unfolding rescue refusal
  rescued Urls.Error.path_not_allowed m fresh up =
      answered Urls.Error.path_not_allowed 403 _ m fresh up
  rescued Urls.Error.file_not_found m fresh up = answered Urls.Error.file_not_found 404 _ m fresh up
  rescued Urls.Error.unreadable_resource m fresh up =
      answered Urls.Error.unreadable_resource 422 _ m fresh up
  rescued Urls.Error.strict_checking m fresh up =
      answered Urls.Error.strict_checking 422 _ m fresh up
  rescued Urls.Error.runtime_error m fresh up = (refl, refl, refl)
  rescued Urls.Error.value_error m fresh up = (refl, refl, refl)
  rescued (Urls.Error.lru_error y) m fresh up = (refl, refl, refl)

  -- A project that cannot be looked up: on a fresh response and a socket that takes the answer, the
  -- client gets one message, with 403, 404 or 422 by the kind of the exception, and QGIS is not
  -- called; any other exception leaves the request unanswered and goes to the worker's loop.
  pub handle_qgis_request-Refused :
      (scheme request_id : Option String) (x : Urls.Error)
      → s.response.handler.header_written ≡ false
      → Takes
      → (lookup c.urls c.services location (always_refresh c) s.cache).0 ≡ raise x
      → Refused s x (status_of x) (handle_qgis_request c scheme (some location) request_id s)
  unfolding handle_qgis_request
  handle_qgis_request-Refused scheme request_id x fresh up h =
      rw (prepare_raises scheme request_id x h) (rescued x _ fresh up)
