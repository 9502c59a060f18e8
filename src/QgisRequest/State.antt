-- ===== src/QgisRequest/State.antt =====
-- What a request of src/pyqgisserver/qgsworker.py works on: the request's headers, the response, the
-- project cache of the worker, and what QGIS was told.
use py_qgis_server.Prelude.{
  ℕ, String, Bool, Option, List, [], ◌∷◌, ◌++◌, string_eq, Result, ok, raise,
}
use py_qgis_server.Prelude.Actions.{Action, modify}
use py_qgis_server.Cache.{Manager, Services}
use py_qgis_server.Cache.Urls
use py_qgis_server.Dict
use py_qgis_server.Dict.{Dict}
use py_qgis_server.Messages.{Content, Metadata}
use py_qgis_server.Response.{Response}
use py_qgis_server.Worker

pub data Error : Type 0 where
  cache_error : Urls.Error → Error
  worker_error : Worker.Error → Error
  qgis_error attribute_error : Error

-- The values of the class and of one request. Header values that are `None` are left out.
pub record Session (Project : Type 0) : Type 0 where
  pub headers : Dict String String
  pub response : Response
  pub cache : Manager Project
  pub cache_last_check : ℕ
  -- `removeConfigCacheEntry`, `setConfigFilePath`, and the calls of `handleRequest`
  pub removed_entries : List String
  pub config_path : Option String
  pub handled : List (Option Project)

-- The class attributes, the request, and what QGIS and the library of Python do. `check_interval` is
-- 0 for a negative one; a parameter that a request does not have is the empty text.
pub record Context (Project : Type 0) : Type 0 where
  pub check_interval : ℕ
  pub default_project_location : Option String
  pub force_etag : Bool
  pub trust_layer_metadata : Bool
  pub urls : Urls.Config
  pub services : Services Project
  pub is_head : Bool
  pub parameter : String → String
  pub lower : String → String
  pub sha1 : String → String
  pub isoformat : ℕ → String
  pub local_isoformat : ℕ → String
  pub encode : String → Content
  pub file_name : Project → String
  pub last_modified : Project → Option ℕ
  pub wire : Worker.Wire
  pub metadata : Option Metadata
  -- `handleRequest`, with the project if one is given
  pub handle_request : Option Project → Action Error Response (Unit {0})
  -- `response.write(exception)` for an exception of this code
  pub write_exception : ℕ → Action Worker.Error Response (Unit {0})

module _ {A : Type 0} where
  abbrev pub cache_result : Result Urls.Error A → Result Error A
  cache_result (ok a) = ok a
  cache_result (raise x) = raise (cache_error x)

  abbrev pub worker_result : Result Worker.Error A → Result Error A
  worker_result (ok a) = ok a
  worker_result (raise x) = raise (worker_error x)

module _ {P A : Type 0} where
  abbrev pub on_cache : Action Urls.Error (Manager P) A → Action Error (Session P) A
  on_cache f s = (cache_result (f s.cache).0, record s { cache = (f s.cache).1 })

  abbrev pub on_response : Action Worker.Error Response A → Action Error (Session P) A
  on_response f s = (worker_result (f s.response).0, record s { response = (f s.response).1 })

module _ {P : Type 0} where
  -- `self.request.headers.pop(name, None)`
  unfoldable pub pop_header : String → Action Error (Session P) (Option String)
  unfolding Dict.get Dict.remove
  pop_header name s =
      (ok (Dict.get name s.headers), record s { headers = Dict.remove name s.headers })

  -- `iface.removeConfigCacheEntry(path)`
  unfoldable pub remove_entry : String → Action Error (Session P) (Unit {0})
  remove_entry path = modify (λ s. record s { removed_entries = s.removed_entries ++ path ∷ [] })

  -- `self.qgis_server.handleRequest(request, response, project)`
  unfoldable pub call_qgis : Context P → Option P → Action Error (Session P) (Unit {0})
  call_qgis c p s = (
    (c.handle_request p s.response).0,
    record s { response = (c.handle_request p s.response).1; handled = s.handled ++ p ∷ [] },
  )
