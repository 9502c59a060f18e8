-- ===== src/Cache/Postgres.antt =====
-- Projects in a database (src/pyqgisserver/qgscache/handlers/postgres_handler.py): the connection and
-- the URL that a request's URL leads to. What the library takes apart of a URL, and the database, are
-- parameters.
use Prim.Native.String.{◌++◌ as ◌^◌}
use py_qgis_server.Prelude.{
  ℕ, String, Bool, true, false, Option, none, some, List, [], ◌∷◌, string_eq, ◌==◌, contains,
  if◌then◌else◌, Result, ok, raise, ◌>>=◌,
}
use py_qgis_server.Cache.{Details}
use py_qgis_server.Cache.Handlers.{renew}
use py_qgis_server.Cache.Urls
use py_qgis_server.Dict
use py_qgis_server.Dict.{Dict}

-- The exceptions of the cache, and the `TypeError` of a parameter that is given twice.
pub data Error : Type 0 where
  cache_error : Urls.Error → Error
  type_error : Error

-- What the library reads from a URL: `parse_qs` with the first value of each parameter, and the path
-- without its slashes.
pub record Parts : Type 0 where
  pub text : String
  pub params : Dict String String
  pub stripped_path : String
  pub netloc : String
  pub hostname : Option String
  pub port : Option ℕ
  pub username : Option String
  pub password : Option String

pub record Connection : Type 0 where
  pub host : Option String
  pub port : Option ℕ
  pub user : Option String
  pub password : Option String
  pub database : Option String
  pub options : Dict String String

-- The answer to a query: `OperationalError`, another error, no row, or the time in its metadata.
pub data Answer : Type 0 where
  operational_error database_error no_row : Answer
  row : ℕ → Answer

-- `ALLOWED_SECURE_PARAMS`
abbrev pub allowed_secure_params : List String
allowed_secure_params = "service" ∷ ("project" ∷ ("dbname" ∷ ("schema" ∷ [])))

unfoldable pub only_allowed : Dict String String → Dict String String
only_allowed [] = []
only_allowed ((k, v) ∷ d) =
    let rest = only_allowed d in if contains k allowed_secure_params then (k, v) ∷ rest else rest

unfoldable pub params_of : Bool → Dict String String → Dict String String
unfolding only_allowed
params_of insecure d = if insecure then d else only_allowed d

-- `params.pop(name, default)`
unfoldable pub value_or : String → String → Dict String String → String
unfolding Dict.get
value_or name default d = elim (Dict.get name d) [ none ↦ default | some v ↦ v ]

-- What is left of the parameters when project, schema and dbname are taken out.
unfoldable pub options_of : Dict String String → Dict String String
unfolding Dict.remove
options_of d = Dict.remove "dbname" (Dict.remove "schema" (Dict.remove "project" d))

-- A keyword that `dict` is given besides: `**params` may not have it too.
unfoldable pub repeats : Dict String String → Bool
repeats [] = false
repeats ((k, v) ∷ d) =
    let later = repeats d in
    if contains k ("host" ∷ ("port" ∷ ("user" ∷ ("password" ∷ ("database" ∷ [])))))
    then true
    else later

-- `'&'.join(f'{k}={v}' ...)`
unfoldable pub join_params : Dict String String → String
join_params [] = ""
join_params ((k, v) ∷ []) = k ^ ("=" ^ v)
join_params ((k, v) ∷ (e ∷ d)) = k ^ ("=" ^ (v ^ ("&" ^ join_params (e ∷ d))))

unfoldable pub select_text : String → String → String
select_text schema project =
    "select metadata from " ^ (schema ^ (".qgis_projects where name='" ^ (project ^ "'")))

-- the user that a secure URL keeps
unfoldable pub netloc_of : Bool → Parts → String
netloc_of insecure u =
    if insecure
    then u.netloc
    else elim u.username [ none ↦ "" | some name ↦ if name == "" then "" else name ^ "@" ]

unfoldable pub connection_of : Parts → Dict String String → Option String → Connection
connection_of u options database = record {
  host = u.hostname;
  port = u.port;
  user = u.username;
  password = u.password;
  database = database;
  options = options;
}

-- `if database: params.update(dbname=database)`
unfoldable pub with_database : Option String → Dict String String → Dict String String
unfolding Dict.put
with_database none d = d
with_database (some name) d = if name == "" then d else Dict.put "dbname" name d

-- The URL that QGIS reads, with the parameters in their order.
unfoldable pub url_text :
    Bool → Parts → Dict String String → String → String → Option String → String
unfolding netloc_of join_params with_database Dict.put
url_text insecure u options project schema database =
    let named = Dict.put "schema" schema (Dict.put "project" project options) in
    "postgresql://" ^ (netloc_of insecure u ^ ("/?" ^ join_params (with_database database named)))

unfoldable pub time_of : Answer → Result Error ℕ
time_of operational_error = raise (cache_error Urls.Error.file_not_found)
time_of database_error = raise (cache_error Urls.Error.runtime_error)
time_of no_row = raise (cache_error Urls.Error.file_not_found)
time_of (row t) = ok t

module _ (query : Connection → String → Answer) (insecure : Bool) where
  -- `_check_unsafe_url`
  unfoldable pub check_unsafe_url : Parts → Result Error (String × ℕ)
  unfolding params_of value_or options_of repeats connection_of select_text url_text time_of
      Dict.get
  check_unsafe_url u =
      let params = params_of insecure u.params in
      let project = value_or "project" u.stripped_path params in
      let schema = value_or "schema" "public" params in
      let database = Dict.get "dbname" params in
      let options = options_of params in
      if project == ""
      then raise (cache_error Urls.Error.file_not_found)
      else if repeats options
      then raise type_error
      else time_of (query (connection_of u options database) (select_text schema project))
        >>= (λ t. ok (url_text insecure u options project schema database, t))

  -- `get_modified_time`
  unfoldable pub get_modified_time : Parts → Result Error ℕ
  unfolding check_unsafe_url
  get_modified_time u = check_unsafe_url u >>= λ found. ok found.1

abbrev cache_result : {A : Type 0} → Result Urls.Error A → Result Error A
cache_result (ok a) = ok a
cache_result (raise x) = raise (cache_error x)

-- `get_project` of a URL
unfoldable pub get_project :
    {P : Type 0}
    → (Connection → String → Answer)
    → Bool
    → (String → Result Urls.Error P)
    → Parts
    → Option (Details P)
    → Result Error (Details P)
unfolding check_unsafe_url renew
get_project query insecure read u old =
    check_unsafe_url query insecure u
    >>= (λ found. cache_result (renew read found.0 found.1 (λ d. d) old))
