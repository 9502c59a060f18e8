-- ===== src/Http/Base.antt =====
-- The other answers of `BaseHandler` (src/pyqgisserver/handlers/basehandler.py): options, JSON and
-- errors.
use py_qgis_server.Prelude.{ℕ, String, nat_eq, ◌==◌, if◌then◌else◌}
use py_qgis_server.Prelude.Actions.{when, ◌>>=◌, ◌>>◌}
use py_qgis_server.Http.Calls.{Handling, call, finish, set_header, write}
use py_qgis_server.Http.Headers.{set_access_control_headers}
use py_qgis_server.Http.Services.{Context}
use py_qgis_server.Text.{Text}

module _ (c : Context) where
  -- `set_option_headers`; `authorization` is the text of that name
  unfoldable pub set_option_headers : Text → Text → Handling (Unit {0})
  unfolding call set_access_control_headers
  set_option_headers authorization allow = do
    call (set_header "Allow" allow)
    call (set_header "Access-Control-Allow-Headers" authorization)
    crossed ← set_access_control_headers c
    when crossed (call (set_header "Access-Control-Allow-Methods" allow))

  -- `write_json` of a text; `json` is the content type
  unfoldable pub write_json : Text → Text → Handling (Unit {0})
  unfolding call set_access_control_headers
  write_json json chunk =
      call (set_header "Content-Type" json) >> (set_access_control_headers c >> call (write chunk))

  -- `write_error`, for the dump of its three values
  unfoldable pub write_error :
      Text → (String → ℕ → String → Text) → String → ℕ → Handling (Unit {0})
  unfolding call write_json
  write_error json dumps reason code =
      write_json json (dumps (if code == 200 then "ok" else "error") code reason) >> call finish
