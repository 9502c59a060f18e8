-- ===== src/Management.antt =====
-- `RequestHandler` of the management API (src/pyqgisserver/management/apis/handler.py): a request that
-- QGIS hands to a handler written in Python.
pub mod Apis
mod Examples
pub mod Finishing
pub mod Flags
pub mod Pages
use py_qgis_server.Prelude.{
  ℕ, String, Bool, true, false, Option, none, some, List, [], ◌∷◌, ◌++◌, nat_eq, ◌==◌,
  if◌then◌else◌, Result, ok, raise,
}
use py_qgis_server.Prelude.Actions.{
  Action, bind_result, catch, catch_result, gets, modify, pure, throw, when, ◌>>=◌, ◌>>◌,
}

-- `HTTPError` with its status and reason, the errors of `finish` and `write`, and any other.
pub data Error : Type 0 where
  http_error : ℕ → Option String → Error
  runtime_error type_error other_error : Error

-- What is written: a text or bytes, the dictionary of an error, another dictionary, or a value of
-- another type.
pub data Chunk : Type 0 where
  text : String → Chunk
  error_dict : String → ℕ → String → Chunk
  dict : String → Chunk
  other : Chunk

-- The calls of the response of QGIS.
pub data Call : Type 0 where
  clear finish_response : Call
  set_status_code : ℕ → Call
  set_response_header : String → String → Call
  write_response : Chunk → Call

pub record Handler : Type 0 where
  pub finished : Bool
  pub reason : String
  pub calls : List Call

-- The methods that a handler has by its class.
pub data Command : Type 0 where
  finish_with : Option Chunk → Command
  write_chunk : Chunk → Command
  status : ℕ → Option String → Command
  error : ℕ → Option String → Command
  header : String → String → Command

-- The body of a method of a subclass, as it runs: commands, exceptions and `try` statements.
pub data Program : Type 0 where
  skip : Program
  fail : Error → Program
  run : Command → Program
  seq : Program → Program → Program
  guard : Program → Program → Program

-- The methods of `QgsServerRequest`.
pub data Method : Type 0 where
  head put get post patch delete other_method : Method

abbrev pub Handling : Type 0
Handling = Action Error Handler (Unit {0})

unfoldable pub call : Call → Handling
call k = modify (λ s. record s { calls = s.calls ++ k ∷ [] })

-- `set_header`
unfoldable pub set_header : String → String → Handling
unfolding call
set_header name value = call (set_response_header name value)

-- `write`
unfoldable pub write : Chunk → Handling
unfolding call set_header
write other = throw type_error
write (text t) =
    set_header "Content-Type" "application/json;charset=utf-8" >> call (write_response (text t))
write (dict d) =
    set_header "Content-Type" "application/json;charset=utf-8" >> call (write_response (dict d))
write (error_dict s n m) =
    set_header "Content-Type" "application/json;charset=utf-8"
    >> call (write_response (error_dict s n m))

unfoldable pub write_given : Option Chunk → Handling
unfolding write
write_given none = pure tt
write_given (some chunk) = write chunk

-- `finish`
unfoldable pub finish : Option Chunk → Handling
unfolding call write_given
finish chunk s =
    if s.finished
    then (raise runtime_error, s)
    else (write_given chunk >> (modify (λ t. record t { finished = true }) >> call finish_response))
        s

-- `reason`, or the text of the status
abbrev pub reason_of : (ℕ → String) → ℕ → Option String → String
reason_of responses code none = responses code
reason_of responses code (some r) = r

-- the reason of an `HTTPError` that has one, or the argument
abbrev pub reason_from : Option Error → Option String → Option String
reason_from (some (http_error code (some r))) reason = some r
reason_from (some (http_error code none)) reason = reason
reason_from (some runtime_error) reason = reason
reason_from (some type_error) reason = reason
reason_from (some other_error) reason = reason
reason_from none reason = reason

-- The status that answers an exception.
abbrev pub code_of : Error → ℕ
code_of (http_error code reason) = code
code_of runtime_error = 500
code_of type_error = 500
code_of other_error = 500

-- `METHODS`, and `_unimplemented_method` for what a subclass does not define
unfoldable pub method_program : (Method → Option Program) → Method → Program
method_program methods m = elim (methods m) [ none ↦ fail (http_error 405 none) | some p ↦ p ]

unfoldable pub is_known : Method → Bool
is_known other_method = false
is_known head = true
is_known put = true
is_known get = true
is_known post = true
is_known patch = true
is_known delete = true

-- `if not self._finished: self.finish()`
unfoldable pub finish_once : Handling
unfolding finish
finish_once = gets (λ s. s.finished) >>= λ finished. (if finished then pure tt else finish none)

-- `responses` are the texts of the statuses, "Unknown" for another.
module _ (responses : ℕ → String) where
  -- `set_status`
  unfoldable pub set_status : ℕ → Option String → Handling
  unfolding call
  set_status code reason =
      call (set_status_code code)
      >> modify (λ s. record s { reason = reason_of responses code reason })

  -- `send_error`
  unfoldable pub send_error : ℕ → Option String → Option Error → Handling
  unfolding call set_status write finish
  send_error code reason exc = do
    call clear
    set_status code (reason_from exc reason)
    message ← gets (λ s. s.reason)
    write (error_dict (if code == 200 then "ok" else "error") code message)
    finished ← gets (λ s. s.finished)
    if finished then pure tt else finish none

  unfoldable pub command : Command → Handling
  unfolding finish write set_status send_error set_header
  command (finish_with chunk) = finish chunk
  command (write_chunk chunk) = write chunk
  command (status code reason) = set_status code reason
  command (error code reason) = send_error code reason none
  command (header name value) = set_header name value

  unfoldable pub perform : Program → Handling
  unfolding command
  perform skip = pure tt
  perform (fail x) = throw x
  perform (run c) = command c
  perform (seq p q) = perform p >> perform q
  perform (guard p q) = catch (perform p) (λ x. perform q)

  -- the method of a request that `prepare` has not finished
  unfoldable pub call_method : (Method → Option Program) → Method → Bool → Handling
  unfolding perform set_status method_program finish_once
  call_method methods m finished =
      if finished
      then pure tt
      else set_status 200 none >> (perform (method_program methods m) >> finish_once)

  -- the `try` of `_execute`
  unfoldable pub attempt : Program → (Method → Option Program) → Method → Handling
  unfolding perform is_known call_method
  attempt prepare methods m =
      if is_known m
      then perform prepare >> (gets (λ s. s.finished) >>= call_method methods m)
      else throw (http_error 405 none)

  -- the `except` clause
  unfoldable pub recover : Error → Handling
  unfolding send_error
  recover x = gets (λ s. s.finished) >>= λ finished.
      (if finished then pure tt else send_error (code_of x) none (some x))

  -- `_execute`
  unfoldable pub execute : Program → (Method → Option Program) → Method → Handling
  unfolding attempt recover
  execute prepare methods m = catch (attempt prepare methods m) recover
