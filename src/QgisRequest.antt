-- ===== src/QgisRequest.antt =====
-- `QgsRequestHandler` (src/pyqgisserver/qgsworker.py): a request in the worker, from the project that
-- it names to the call of QGIS or the answer without QGIS.
mod Examples
pub mod Heads
pub mod Refusals
pub mod Report
pub mod Served
pub mod State
use Prim.Native.String.{◌++◌ as ◌^◌}
use py_qgis_server.Prelude.{
  ℕ, ◌-◌, String, Bool, true, false, not, ◌&&◌, ◌||◌, Option, none, some, List, [], ◌∷◌, map,
  string_eq, ◌==◌, nat_eq, ltb, leb, if◌then◌else◌, Result, ok, raise,
}
use py_qgis_server.Prelude.Actions.{
  Action, pure, throw, catch, catch_result, modify, gets, bind_result, ◌>>=◌, ◌>>◌, when, maybe,
}
use py_qgis_server.Cache.{UpdateState, is_change, is_updated, lookup, peek, update_entry}
use py_qgis_server.Cache.Refresh.{refresh_keys, update_statics}
use py_qgis_server.Cache.Times.{get_modified_time}
use py_qgis_server.Cache.Urls
use py_qgis_server.Cache.Urls.{given}
use py_qgis_server.Dict
use py_qgis_server.QgisRequest.State.{
  Context, Error, Session, attribute_error, cache_error, call_qgis, on_cache, on_response,
  pop_header, remove_entry,
}
use py_qgis_server.Response.{finish, send_error, set_extra_header, set_status_code}

abbrev pub Step : Type 0 → Type 0 → Type 0
Step P A = Action Error (Session P) A

-- `ogc_scheme == 'OWS'`
unfoldable pub is_ows : Option String → Bool
is_ows none = false
is_ows (some s) = s == "OWS"

-- `etag == "*" or etag == computed_etag`
unfoldable pub is_match : Option String → String → Bool
is_match none etag = false
is_match (some h) etag = h == "*" || h == etag

-- What the `except` clauses send for an exception, if one of them catches it.
unfoldable pub refusal : String → Error → Option (ℕ × String)
refusal location (cache_error Urls.Error.strict_checking) =
    some (422, "Invalid layers for project '" ^ (location ^ "' - strict mode on"))
refusal location (cache_error Urls.Error.unreadable_resource) =
    some (422, "Cannot read project resource '" ^ (location ^ "'"))
refusal location (cache_error Urls.Error.path_not_allowed) = some (403, "Project path not allowed")
refusal location (cache_error Urls.Error.file_not_found) =
    some (404, "Project '" ^ (location ^ "' not found"))
refusal location x = none

module _ {P : Type 0} (c : Context P) where
  -- `cls._cache_check_interval <= 0`
  unfoldable pub always_refresh : Bool
  always_refresh = leb c.check_interval 0

  -- `iface.removeConfigCacheEntry(details.project.fileName())` with the details of `peek`
  unfoldable pub forget_entry : String → Step P (Unit {0})
  unfolding remove_entry peek
  forget_entry key s = elim (peek s.cache key) [
    | none ↦ (raise attribute_error, s)
    | some d ↦ remove_entry (c.file_name d.project) s
  ]

  -- the loop of `refresh_cache` over `refresh()`
  unfoldable pub refresh_entries : List String → Step P (Unit {0})
  unfolding forget_entry is_updated update_entry
  refresh_entries [] = pure tt
  refresh_entries (key ∷ rest) =
      on_cache (update_entry c.urls c.services key)
      >>= (λ state. when (is_updated state) (forget_entry key))
      >>= (λ _. refresh_entries rest)

  -- `refresh_cache` at the time `now`
  unfoldable pub refresh_cache : ℕ → Step P (Unit {0})
  unfolding always_refresh refresh_entries update_statics refresh_keys
  refresh_cache now s =
      if always_refresh || ltb (now - s.cache_last_check) c.check_interval
      then (ok tt, s)
      else ((on_cache (λ m. update_statics c.urls (λ _. c.services) (map (λ e. e.0) m.static) m)
            >> (λ t. refresh_entries (refresh_keys t.cache) t)
            >> modify (λ t. record t { cache_last_check = now }))
          s)

  -- `compute_etag`
  unfoldable pub compute_etag : String → ℕ → Option String
  compute_etag uri t =
      if c.force_etag || c.trust_layer_metadata
      then if c.lower (c.parameter "REQUEST") == "getcapabilities"
        then some (
            "\""
            ^ (c.sha1 (
                  c.lower (c.parameter "SERVICE")
                  ^ (c.lower (c.parameter "VERSION") ^ (uri ^ c.isoformat t)))
                ^ "\""))
        else none
      else none

  -- `set_etag_header`
  unfoldable pub set_etag_header : String → ℕ → Step P (Option String)
  unfolding compute_etag set_extra_header
  set_etag_header uri t =
      maybe (compute_etag uri t) (pure none)
        (λ etag. on_response (set_extra_header "Etag" etag) >> pure (some etag))

  -- `check_etag_header`
  unfoldable pub check_etag_header : String → ℕ → Step P Bool
  unfolding set_etag_header is_match Dict.get
  check_etag_header uri t = set_etag_header uri t >>= λ computed.
      maybe computed (pure false)
        (λ etag. gets (λ s. is_match (Dict.get "If-None-Match" s.headers) etag))

  unfoldable pub finish_response : Step P (Unit {0})
  unfolding finish
  finish_response = on_response (finish (c.encode "Internal server error") c.wire c.metadata)

  -- The `try` of `handle_qgis_request` after the lookup: the project for QGIS, or `none` after a
  -- `return`.
  unfoldable pub use_project :
      Option String → String → Option String → P × UpdateState → Step P (Option P)
  unfolding is_change get_modified_time remove_entry set_extra_header check_etag_header
      set_status_code finish_response
  use_project scheme location request_id (project, state) = do
    when (is_change state) (remove_entry (c.file_name project))
    t ← on_cache (get_modified_time c.urls c.services c.last_modified location true)
    on_response (set_extra_header "X-Map-Id" location)
    on_response (set_extra_header "Last-Modified" (c.local_isoformat t))
    maybe request_id (pure tt) (λ i. on_response (set_extra_header "X-Request-Id" i))
    hit ← if is_ows scheme then check_etag_header location t else pure false
    if hit
        then (do on_response (set_status_code 304); finish_response; pure none)
        else pure (some project)

  -- The `try` of `handle_qgis_request`.
  unfoldable pub prepare_project : Option String → String → Option String → Step P (Option P)
  unfolding lookup use_project always_refresh
  prepare_project scheme location request_id =
      on_cache (lookup c.urls c.services location always_refresh)
      >>= use_project scheme location request_id

  -- `response.sendError(code, message)`, after which nothing is left to do
  unfoldable pub answer_error : ℕ → String → Step P (Option P)
  unfolding send_error
  answer_error code message = on_response (send_error c.wire code (c.encode message)) >> pure none

  -- The `except` clauses: an answer without QGIS, or the exception again.
  unfoldable pub rescue : String → Error → Step P (Option P)
  unfolding answer_error refusal
  rescue location x = maybe (refusal location x) (throw x) (λ r. answer_error r.0 r.1)

  -- The `else` clause: QGIS, with the project.
  unfoldable pub serve_project : Option P → Step P (Unit {0})
  unfolding call_qgis
  serve_project o =
      maybe o (pure tt) (λ p. do
        modify (λ s. record s { config_path = some (c.file_name p) })
        call_qgis c (some p))

  -- `handle_qgis_request`
  unfoldable pub handle_qgis_request :
      Option String → Option String → Option String → Step P (Unit {0})
  unfolding prepare_project rescue serve_project call_qgis
  handle_qgis_request scheme none request_id = call_qgis c none
  handle_qgis_request scheme (some location) request_id =
      catch (prepare_project scheme location request_id) (rescue location) >>= serve_project

  -- The project of a request: of its headers, or of the environment.
  unfoldable pub find_location : Step P (Option String)
  unfolding given pop_header
  find_location = pop_header "X-Map-Location" >>= λ map_location.
      maybe (given map_location)
        (pop_header "X-Qgis-Project" >>= λ project.
          maybe (given project) (pure (given c.default_project_location)) (λ l. pure (some l)))
        (λ l. pure (some l))

  -- the `with` block of `handle_message`
  unfoldable pub dispatch : Option String → Option String → Option String → Step P (Unit {0})
  unfolding is_ows finish_response get_modified_time set_etag_header handle_qgis_request
  dispatch scheme none request_id =
      if is_ows scheme && not (c.parameter "SERVICE" == "")
      then on_response (c.write_exception 400) >> finish_response
      else handle_qgis_request scheme none request_id
  dispatch scheme (some location) request_id =
      if is_ows scheme && c.is_head
      then (do
        t ← on_cache (get_modified_time c.urls c.services c.last_modified location false)
        set_etag_header location t
        finish_response)
      else handle_qgis_request scheme (some location) request_id

  -- `handle_message`; the change of the log level is left out, but not the loss of its header
  unfoldable pub handle_message : Step P (Unit {0})
  unfolding find_location pop_header given dispatch Dict.get Dict.remove
  handle_message = do
    location ← find_location
    scheme ← pop_header "X-Ogc-Scheme"
    request_id ← gets (λ s. given (Dict.get "X-Request-Id" s.headers))
    pop_header "X-Debug-Id"
    dispatch scheme location request_id
