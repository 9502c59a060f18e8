-- ===== src/Http/Services.antt =====
-- The handlers of the OWS services (src/pyqgisserver/handlers/owshandler.py) and of the OGC APIs
-- (oapihandler.py): the arguments that they pass on, and what they report.
pub mod Limits
use py_qgis_server.Prelude.{
  ℕ, zero, suc, String, Bool, true, false, ◌&&◌, Option, none, some, List, [], ◌∷◌, ◌++◌, map,
  string_eq, ◌==◌, ltb, if◌then◌else◌, Result, ok, raise,
}
use py_qgis_server.Dict
use py_qgis_server.Dict.{Dict}
use py_qgis_server.Http.Calls.{
  Answer, Error, Exchange, Fetch, Parameter, Report, Request, many, one,
}
use py_qgis_server.Text.{Text, ℤ, pos, negsuc, decimal, int, lower, same, starts_with, upper}

-- The handler's class, with the limit of `OwsHandler` (0 for a negative one) or the service of
-- `OAPIHandler`.
pub data Service : Type 0 where
  plain : Service
  ows : ℕ → Service
  oapi : Text → Service

-- The configuration, the library of the HTTP server, the client, the monitor, and the clock at the
-- start, at the answer and at the end of a request. `upper_name` is `upper` on names; an argument that
-- is not UTF-8 makes `get_argument` raise and has no `decode`; `publish` is `emit` of the monitor,
-- which gets the headers of the request too.
pub record Context : Type 0 where
  pub service : Service
  pub cross_origin : Bool
  pub http_proxy : Bool
  pub proxy_setting : Text
  pub allowed_hdrs : List String
  pub debug_request_id : Option Text
  pub has_monitor : Bool
  pub upper_name : String → String
  pub get_argument : Request → String → Result Error (Option Text)
  pub decode : Text → Option Text
  pub publish : Request → Report → Result Error (Unit {0})
  pub urlencode : Dict String Text → Text
  pub fetch : Fetch → Result Error Answer
  pub started : ℕ
  pub answered : ℕ
  pub ended : ℕ

-- The texts of the code: WFS, getfeature, "2." and "__unknown__".
abbrev pub wfs : Text
wfs = 87 ∷ 70 ∷ 83 ∷ []

abbrev pub getfeature : Text
getfeature = 103 ∷ 101 ∷ 116 ∷ 102 ∷ 101 ∷ 97 ∷ 116 ∷ 117 ∷ 114 ∷ 101 ∷ []

abbrev pub version_two : Text
version_two = 50 ∷ 46 ∷ []

abbrev pub unknown : Text
unknown = 95 ∷ 95 ∷ 117 ∷ 110 ∷ 107 ∷ 110 ∷ 111 ∷ 119 ∷ 110 ∷ 95 ∷ 95 ∷ []

-- whether a text is true
unfoldable pub is_given : Text → Bool
is_given [] = false
is_given (c ∷ s) = true

-- `d.get(name, b'')`
unfoldable pub get_text : String → Dict String Text → Text
unfolding Dict.get
get_text name d = elim (Dict.get name d) [ none ↦ [] | some v ↦ v ]

-- `v[0]`; the HTTP server gives each argument a value at least
unfoldable pub first_value : List Text → Text
first_value [] = []
first_value (v ∷ vs) = v

unfoldable pub first_values : Request → Dict String Text
unfolding first_value
first_values r = map (λ e. (e.0, first_value e.1)) r.arguments

-- The condition of `fix_getfeature`.
unfoldable pub is_getfeature : Dict String Text → Bool
unfolding get_text upper lower same
is_getfeature d =
    same (upper (get_text "SERVICE" d)) wfs && same (lower (get_text "REQUEST" d)) getfeature

unfoldable pub limit_key : Dict String Text → String
unfolding get_text starts_with
limit_key d = if starts_with (get_text "VERSION" d) version_two then "COUNT" else "MAXFEATURES"

-- `int(arguments.get(key, 0))`, `none` for `ValueError`
unfoldable pub asked : Option Text → Option ℤ
unfolding int
asked none = some (pos 0)
asked (some v) = int v

-- `min(limit, actual_limit)` where that is positive
unfoldable pub capped : ℕ → Option ℤ → ℕ
capped limit none = limit
capped limit (some (pos zero)) = limit
capped limit (some (pos (suc n))) = if ltb limit (suc n) then limit else suc n
capped limit (some (negsuc n)) = limit

-- `fix_getfeature`
unfoldable pub fix_getfeature : ℕ → Dict String Text → Dict String Text
unfolding is_getfeature limit_key asked capped decimal Dict.get Dict.put
fix_getfeature limit d =
    if ltb 0 limit && is_getfeature d
    then Dict.put (limit_key d) (decimal (capped limit (asked (Dict.get (limit_key d) d)))) d
    else d

-- `encode_arguments`: 63 is `?`
unfoldable pub encode_arguments : Context → Request → Text
unfolding first_values fix_getfeature
encode_arguments c r = elim c.service [
  | plain ↦ 63 ∷ c.urlencode (first_values r)
  | ows limit ↦ 63 ∷ c.urlencode (fix_getfeature limit (first_values r))
  | oapi name ↦ 63 ∷ c.urlencode (first_values r)
]

-- `self.ogc_scheme`
unfoldable pub ogc_scheme : Service → Option Text
ogc_scheme plain = none
ogc_scheme (ows limit) = some (79 ∷ 87 ∷ 83 ∷ [])
ogc_scheme (oapi name) = some (79 ∷ 65 ∷ 70 ∷ [])

-- The arguments under upper case names; of two that become the same the later one stays.
unfoldable pub upper_names : (String → String) → Dict String (List Text) → Dict String (List Text)
unfolding Dict.put
upper_names up d = put_all [] d
  where
    put_all : Dict String (List Text) → Dict String (List Text) → Dict String (List Text)
    put_all done [] = done
    put_all done ((k, v) ∷ rest) = put_all (Dict.put (up k) v done) rest

-- The first name that is MAP in upper case, with its values.
unfoldable pub find_map : (String → String) → Dict String (List Text) → Option (String × List Text)
find_map up [] = none
find_map up ((k, v) ∷ rest) =
    let found = find_map up rest in if up k == "MAP" then some (k, v) else found

unfoldable pub upper_map : (String → String) → Dict String (List Text) → Dict String (List Text)
unfolding find_map Dict.get Dict.put Dict.remove
upper_map up d = elim (Dict.get "MAP" d) [
  | some v ↦ d
  | none ↦ elim (find_map up d) [ none ↦ d | some (k, v) ↦ Dict.put "MAP" v (Dict.remove k d) ]
]

-- `prepare`
unfoldable pub prepare : Context → Exchange → Exchange
unfolding upper_names upper_map
prepare c s = record s {
  has_body_arguments = elim s.request.body_arguments [ [] ↦ false | e ∷ es ↦ true ];
  request = record s.request {
    arguments = elim c.service [
      | plain ↦ s.request.arguments
      | ows limit ↦ upper_names c.upper_name s.request.arguments
      | oapi name ↦ upper_map c.upper_name s.request.arguments
    ];
  };
}

-- `_decode(args.get(k, ["__unknown__"])[0])`, where `UnicodeDecodeError` is not caught
unfoldable pub monitor_argument : Context → Request → String → Result Error Parameter
unfolding Dict.get first_value
monitor_argument c r k = elim (Dict.get k r.arguments) [
  | none ↦ ok (one unknown)
  | some vs ↦ elim (c.decode (first_value vs)) [
    | none ↦ raise Error.other_error
    | some text ↦ ok (one text)
  ]
]

unfoldable pub monitor_arguments :
    Context → Request → List String → Result Error (Dict String Parameter)
unfolding monitor_argument
monitor_arguments c r [] = ok []
monitor_arguments c r (k ∷ ks) = elim (monitor_argument c r k) [
  | raise x ↦ raise x
  | ok v ↦ elim (monitor_arguments c r ks) [ raise x ↦ raise x | ok rest ↦ ok ((k, v) ∷ rest) ]
]

-- `get_monitor_params`; the OGC APIs report all the values of MAP
unfoldable pub get_monitor_params :
    Context → Request → Result Error (Option (Dict String Parameter))
unfolding monitor_arguments Dict.get
get_monitor_params c r = elim c.service [
  | plain ↦ ok none
  | ows limit ↦ elim (monitor_arguments c r ("MAP" ∷ ("SERVICE" ∷ ("REQUEST" ∷ [])))) [
    | raise x ↦ raise x
    | ok params ↦ ok (some params)
  ]
  | oapi name ↦ ok (
      some (
        ("MAP", elim (Dict.get "MAP" r.arguments) [ none ↦ one unknown | some vs ↦ many vs ])
        ∷ (("SERVICE", one name) ∷ (("REQUEST", one r.path) ∷ []))))
]
