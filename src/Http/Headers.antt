-- ===== src/Http/Headers.antt =====
-- The headers that a request takes to the worker (`set_backend_headers` of
-- src/pyqgisserver/handlers/asynchandler.py), and those for other origins (basehandler.py).
use py_qgis_server.Prelude.{
  String, Bool, true, false, ◌&&◌, ◌||◌, Option, none, some, List, [], ◌∷◌, string_eq,
  if◌then◌else◌, Result, ok, raise,
}
use py_qgis_server.Prelude.Actions.{gets, pure, ◌>>=◌, ◌>>◌}
use py_qgis_server.Dict
use py_qgis_server.Dict.{Dict}
use py_qgis_server.Http.Calls.{Error, Handling, Request, call, set_header}
use py_qgis_server.Http.Services.{Context, get_text, is_given, ogc_scheme}
use py_qgis_server.Text.{Text, same}
use text.Mathlib.Text.{starts_with}

-- `headers[name] = value`, if there is one and it is not empty
unfoldable pub put_given : String → Option Text → Dict String Text → Dict String Text
unfolding is_given Dict.put
put_given name none d = d
put_given name (some v) d = if is_given v then Dict.put name v d else d

-- `headers[name] = value`, where a `None` is left out
unfoldable pub put_known : String → Option Text → Dict String Text → Dict String Text
unfolding Dict.put
put_known name none d = d
put_known name (some v) d = Dict.put name v d

unfoldable pub is_any_prefix : List String → String → Bool
is_any_prefix [] name = false
is_any_prefix (p ∷ ps) name = starts_with name p || is_any_prefix ps name

-- the debug id is `*` (42), or that of the request
unfoldable pub is_debugged : Option Text → Text → Bool
unfolding is_given same
is_debugged none id = false
is_debugged (some allowed) id = is_given id && (same allowed (42 ∷ []) || same id allowed)

module _ (c : Context) where
  -- `copy_headers`
  unfoldable pub copy_headers : Dict String Text → Dict String Text → Dict String Text
  unfolding is_any_prefix Dict.put
  copy_headers [] d = d
  copy_headers ((k, v) ∷ rest) d =
      copy_headers rest
        (if is_any_prefix c.allowed_hdrs (c.upper_name k) then Dict.put k v d else d)

  -- what follows the reading of MAP in `set_backend_headers`
  unfoldable pub other_headers : Request → Dict String Text → Dict String Text
  unfolding put_given put_known ogc_scheme get_text is_debugged copy_headers Dict.get Dict.put
  other_headers r d1 =
      let d2 = put_given "X-Ogc-Scheme" (ogc_scheme c.service) d1 in
      let d3 = Dict.put "If-None-Match" (get_text "If-None-Match" r.headers) d2 in
      let d4 = put_known "X-Request-Id" (Dict.get "X-Request-Id" r.headers) d3 in
      let debug_id = get_text "X-Debug-Id" r.headers in
      let d5 =
        if is_debugged c.debug_request_id debug_id then Dict.put "X-Debug-Id" debug_id d4 else d4 in
      let d6 = Dict.put "Accept" (get_text "Accept" r.headers) d5 in copy_headers r.headers d6

  -- `set_backend_headers`
  unfoldable pub backend_headers : Request → Dict String Text → Result Error (Dict String Text)
  unfolding put_given other_headers
  backend_headers r d = elim (c.get_argument r "MAP") [
    | raise x ↦ raise x
    | ok path ↦ ok (other_headers r (put_given "X-Map-Location" path d))
  ]

  -- `set_access_control_headers`: 42 is `*`
  unfoldable pub set_access_control_headers : Handling Bool
  unfolding get_text is_given call
  set_access_control_headers = gets (λ s. get_text "Origin" s.request.headers) >>= λ origin.
      if is_given origin
      then (if c.cross_origin
          then call (set_header "Access-Control-Allow-Origin" (42 ∷ []))
          else (call (set_header "Access-Control-Allow-Origin" origin)
              >> call (set_header "Vary" (79 ∷ 114 ∷ 105 ∷ 103 ∷ 105 ∷ 110 ∷ []))))
        >> pure true
      else pure false
