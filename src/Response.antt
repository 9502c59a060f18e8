-- ===== src/Response.antt =====
-- `Response` (src/pyqgisserver/qgsworker.py): the adaptor through which QGIS server writes its answer
-- to the worker's handler. QGIS appends to the buffer, flushes it, and finishes.
use py_qgis_server.Prelude.{
  ℕ, String, Bool, true, false, not, ◌&&◌, ◌||◌, Option, none, some, [], ◌∷◌, ◌++◌, string_eq,
  if◌then◌else◌, length,
}
use py_qgis_server.Prelude.Actions.{Action, pure, throw, catch, modify, gets, when, ◌>>=◌, ◌>>◌}
use py_qgis_server.Dict
use py_qgis_server.Dict.{Dict}
use py_qgis_server.Messages.{Content, HeaderValue, text, number, Headers, Metadata}
use py_qgis_server.Worker.{Error, key_error, Handler, Wire, send}

pub record Response : Type 0 where
  pub handler : Handler
  pub buffer : Content
  pub finished : Bool
  pub extra_headers : Headers

-- The truth value of `bytesAvail`, the length of the buffer.
abbrev pub has_bytes : Content → Bool
has_bytes [] = false
has_bytes (b ∷ bs) = true

-- `__init__`
abbrev pub init : Handler → Response
init h = record { handler = h; buffer = []; finished = false; extra_headers = [] }

-- A method of the handler, called by the response.
abbrev pub on_handler : {A : Type 0} → Action Error Handler A → Action Error Response A
on_handler m r = let (x, h) = m r.handler in (x, record r { handler = h })

abbrev pub Method : Type 0
Method = Action Error Response (Unit {0})

abbrev pub set_handler : (Handler → Handler) → Method
set_handler f = on_handler (modify f)

-- QGIS writes to the device that `io` returns.
unfoldable pub write : Content → Method
write body = modify (λ r. record r { buffer = r.buffer ++ body })

-- `truncate`
unfoldable pub truncate : Method
truncate = modify (λ r. record r { buffer = [] })

-- `setStatusCode`; past the header the code is left as it is
unfoldable pub set_status_code : ℕ → Method
set_status_code code = do
  written ← gets (λ r. r.handler.header_written)
  when (not written) (set_handler (λ h. record h { status_code = code }))

-- `setHeader`
unfoldable pub set_header : String → HeaderValue → Method
unfolding Dict.put
set_header key value = do
  written ← gets (λ r. r.handler.header_written)
  when (not written) (set_handler (λ h. record h { headers = Dict.put key value h.headers }))

-- `setExtraHeader`
unfoldable pub set_extra_header : String → String → Method
unfolding set_header
set_extra_header key value = do
  modify (λ r. record r { extra_headers = Dict.put key (text value) r.extra_headers })
  set_header key (text value)

-- `removeHeader`
unfoldable pub remove_header : String → Method
unfolding Dict.remove
remove_header key = set_handler (λ h. record h { headers = Dict.remove key h.headers })

-- `headers.update(extra)`
unfoldable pub update_headers : Headers → Headers → Headers
unfolding Dict.put
update_headers hs [] = hs
update_headers hs ((k, v) ∷ extra) = update_headers (Dict.put k v hs) extra

-- `_clearHeaders` and `clear`
unfoldable pub clear : Method
unfolding update_headers truncate
clear = do
  extra ← gets (λ r. r.extra_headers)
  set_handler (λ h. record h { headers = update_headers [] extra })
  truncate

-- `sendError`: the body of its `try`, and the handler that only logs
unfoldable pub send_error : Wire → ℕ → Content → Method
unfolding send
send_error wire code message =
    catch
      (do
        written ← gets (λ r. r.handler.header_written)
        when (not written) (do
          set_handler (λ h. record h { status_code = code })
          on_handler (send wire message false none)
          modify (λ r. record r { finished = true })))
      (λ _. pure tt)

-- The body of the `try` in `flush`.
unfoldable pub flush_buffer : Wire → Option Metadata → Method
unfolding send Dict.put
flush_buffer wire meta = do
  body ← gets (λ r. r.buffer)
  finish ← gets (λ r. r.finished)
  when (finish && has_bytes body) (
      set_handler
        (λ h. record h { headers = Dict.put "Content-Length" (number (length body)) h.headers }))
  written ← gets (λ r. r.handler.header_written)
  let more = not finish || written
  if has_bytes body
      then (do on_handler (send wire body more meta); modify (λ r. record r { buffer = [] }))
      else on_handler (send wire [] more meta)
  when (more && finish) (on_handler (send wire [] false meta))

-- `del headers['Content-Type']`
unfoldable pub del_content_type : Method
unfolding Dict.get Dict.remove
del_content_type = do
  known ← gets (λ r. Dict.get "Content-Type" r.handler.headers)
  elim known [
    | none ↦ throw key_error
    | some _ ↦ set_handler (λ h. record h { headers = Dict.remove "Content-Type" h.headers })
  ]

-- `flush`, with the text of its error message as a parameter
unfoldable pub flush : Content → Wire → Option Metadata → Method
unfolding flush_buffer del_content_type send_error
flush message wire meta =
    catch (flush_buffer wire meta) (λ _. do del_content_type; send_error wire 500 message)

-- `finish`
unfoldable pub finish : Content → Wire → Option Metadata → Method
unfolding flush
finish message wire meta = do modify (λ r. record r { finished = true }); flush message wire meta
