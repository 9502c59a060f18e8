-- ===== src/Monitors/Publisher.antt =====
-- The monitor that publishes reports over AMQP (src/pyqgisserver/monitors/amqp.py), and the one that
-- keeps them (monitors/test.py). The values of a report are of a type of their own.
pub mod Routing
use py_qgis_server.Prelude.{
  ℕ, Bool, true, false, Option, none, some, List, [], ◌∷◌, ◌++◌, map, if◌then◌else◌, Result, ok,
  raise,
}
use py_qgis_server.Prelude.Actions.{Action, gets, modify, pure, throw, maybe, ◌>>=◌, ◌>>◌}
use py_qgis_server.Dict
use py_qgis_server.Dict.{Dict, put, update}
use py_qgis_server.Http.Services.{is_given}
use py_qgis_server.Monitors.{
  Credentials, Error, global_tags, key_error, read_credentials, routing_key_name, unbound_local,
  value_error,
}
use py_qgis_server.Text.{Text, ℤ, int, starts_with}
use py_qgis_server.Text.Parts.{remove_prefix, text_eq}

-- What the AMQP client is made with.
pub record Connection : Type 0 where
  pub host : Text
  pub port : ℤ
  pub vhost : Text
  pub reconnect_delay : ℤ
  pub credentials : Option Credentials
  pub exchange : Text

pub record Monitor : Type 0 where
  pub tags : Dict Text Text
  pub connection : Connection
  pub dynamic_routing : Bool
  pub routing_key : Text
  pub default_routing : Option Text

-- `Monitor.__init__`; `@` is 64
unfoldable pub init : Dict Text Text → Connection → Text → Option Text → Monitor
unfolding global_tags starts_with remove_prefix
init environ connection routing_key default_routing =
    if starts_with routing_key (64 ∷ [])
    then record {
      tags = global_tags environ;
      connection = connection;
      dynamic_routing = true;
      routing_key = remove_prefix (64 ∷ []) routing_key;
      default_routing = default_routing;
    }
    else record {
      tags = global_tags environ;
      connection = connection;
      dynamic_routing = false;
      routing_key = routing_key;
      default_routing = none;
    }

-- The fallback of a `KeyError`: without a default routing key the variable is never set.
unfoldable pub fall_back : Option Text → Result Error Text
unfolding is_given
fall_back none = raise unbound_local
fall_back (some key) = if is_given key then ok key else raise unbound_local

unfoldable pub routed : Result Error Text → Option Text → Result Error Text
unfolding fall_back
routed (ok key) d = ok key
routed (raise key_error) d = fall_back d
routed (raise x) d = raise x

-- A message to the broker of AMQP.
pub record Publication : Type 0 where
  pub log_msg : Text
  pub key : Text

module _ {V : Type 0} (of_text : Text → V) where
  unfoldable pub values_of : Dict Text Text → Dict Text V
  values_of = map (λ e. (e.0, of_text e.1))

  -- The routing key of a report; `format` is that of the texts, with the headers of the request.
  unfoldable pub route : (Text → Result Error Text) → Monitor → Result Error Text
  unfolding routed
  route format m =
      if m.dynamic_routing
      then routed (format m.routing_key) m.default_routing
      else ok m.routing_key

  -- `dict(self.global_tags, ROUTING_KEY=routing_key)`, and the parameters
  unfoldable pub data_of : Monitor → Dict Text V → Text → Dict Text V
  unfolding values_of put update
  data_of m params key = update (put routing_key_name (of_text key) (values_of m.tags)) params

  -- `emit`, on what has been published; `dumps` is that of JSON, which raises for some values
  unfoldable pub emit :
      (Text → Result Error Text)
      → (Dict Text V → Result Error Text)
      → Monitor
      → Dict Text V
      → Action Error (List Publication) (Unit {0})
  unfolding route data_of
  emit format dumps m params published = elim (route format m) [
    | raise x ↦ (raise x, published)
    | ok key ↦ elim (dumps (data_of m params key)) [
      | raise x ↦ (raise x, published)
      | ok log_msg ↦ (ok tt, published ++ record { log_msg = log_msg; key = key } ∷ [])
    ]
  ]

  -- `emit` of the monitor that keeps the reports in memory
  unfoldable pub emit_test :
      {M : Type 0}
      → Dict Text Text
      → Dict Text V
      → M
      → List (Dict Text V × M)
      → List (Dict Text V × M)
  unfolding values_of update
  emit_test tags params meta messages = messages ++ (update (values_of tags) params, meta) ∷ []

-- The section of the configuration, with the fallback of its last option.
pub record Settings : Type 0 where
  pub routing_key : Text
  pub host : Text
  pub user : Text
  pub vhost : Text
  pub port : Text
  pub exchange : Text
  pub reconnect_delay : Text
  pub default_routing_key : Option Text

module _ (environ : Dict Text Text) (passfile : Option (List Text)) (settings : Settings) where
  unfoldable pub parse_int : Text → Result Error ℤ
  unfolding int
  parse_int s = elim (int s) [ none ↦ raise value_error | some n ↦ ok n ]

  unfoldable pub find_credentials : Result Error (Option Credentials)
  unfolding read_credentials is_given
  find_credentials =
      if is_given settings.user
      then read_credentials settings.vhost settings.user passfile
      else ok none

  -- The client, and what may fail before it is there.
  unfoldable pub connection : Result Error Connection
  unfolding parse_int find_credentials
  connection = elim (parse_int settings.reconnect_delay) [
    | raise x ↦ raise x
    | ok delay ↦ elim find_credentials [
      | raise x ↦ raise x
      | ok credentials ↦ elim (parse_int settings.port) [
        | raise x ↦ raise x
        | ok port ↦ ok (record {
          host = settings.host;
          port = port;
          vhost = settings.vhost;
          reconnect_delay = delay;
          credentials = credentials;
          exchange = settings.exchange;
        })
      ]
    ]
  ]

  -- `initialize`, on the instance that the class keeps; the connection goes on in the background
  unfoldable pub initialize : Action Error (Option Monitor) (Option Monitor)
  unfolding connection init is_given
  initialize (some m) = (ok (some m), some m)
  initialize none =
      if is_given settings.routing_key
      then (elim connection [
        | raise x ↦ (raise x, none)
        | ok c ↦
            let m = init environ c settings.routing_key settings.default_routing_key in
            (ok (some m), some m)
      ])
      else (ok none, none)
