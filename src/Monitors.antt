-- ===== src/Monitors.antt =====
-- The monitors (src/pyqgisserver/monitors): tags of the environment, the credentials of a passfile, and
-- the publisher of reports (amqp.py). The AMQP client and the formatting of a routing key are
-- parameters.

pub mod Tags
pub mod Passfile
mod Examples
pub mod Publisher
use py_qgis_server.Prelude.{
  ℕ, Bool, true, false, ◌&&◌, ◌||◌, Option, none, some, List, [], ◌∷◌, ◌++◌, map, nat_eq, ◌==◌,
  if◌then◌else◌, Result, ok, raise,
}
use py_qgis_server.Prelude.Actions.{Action, modify, pure, throw, maybe, ◌>>=◌, ◌>>◌}
use py_qgis_server.Dict
use py_qgis_server.Dict.{Dict, update}
use py_qgis_server.Http.Services.{is_given}
use py_qgis_server.Text.{Text, same, split, starts_with, strip}
use py_qgis_server.Text.Parts.{partition_rest, remove_prefix, text_eq}

-- `AMQP_GLOBAL_TAG_`, `QGSRV_MONITOR_TAG_` and `ROUTING_KEY`
abbrev pub tag_prefix_legacy : Text
tag_prefix_legacy =
    65 ∷ 77 ∷ 81 ∷ 80 ∷ 95 ∷ 71 ∷ 76 ∷ 79 ∷ 66 ∷ 65 ∷ 76 ∷ 95 ∷ 84 ∷ 65 ∷ 71 ∷ 95 ∷ []

abbrev pub tag_prefix : Text
tag_prefix =
    81 ∷ 71 ∷ 83 ∷ 82 ∷ 86 ∷ 95 ∷ 77 ∷ 79 ∷ 78 ∷ 73 ∷ 84 ∷ 79 ∷ 82 ∷ 95 ∷ 84 ∷ 65 ∷ 71 ∷ 95 ∷ []

abbrev pub routing_key_name : Text
routing_key_name = 82 ∷ 79 ∷ 85 ∷ 84 ∷ 73 ∷ 78 ∷ 71 ∷ 95 ∷ 75 ∷ 69 ∷ 89 ∷ []

-- `_get_tags` with the `if t` of its callers
unfoldable pub get_tags : Text → Dict Text Text → Dict Text Text
unfolding starts_with partition_rest is_given
get_tags prefix [] = []
get_tags prefix ((name, v) ∷ rest) =
    let others = get_tags prefix rest in
    if starts_with name prefix && is_given (partition_rest prefix name)
    then (partition_rest prefix name, v) ∷ others
    else others

-- `MonitorABC.__init__`
unfoldable pub global_tags : Dict Text Text → Dict Text Text
unfolding get_tags update
global_tags environ =
    update (update [] (get_tags tag_prefix environ)) (get_tags tag_prefix_legacy environ)

-- `ValueError`, `KeyError`, `UnboundLocalError`, and any other exception of `format`.
pub data Error : Type 0 where
  value_error key_error unbound_local other_error : Error

-- `PlainCredentials`
pub record Credentials : Type 0 where
  pub user : Text
  pub password : Text

-- `cr in ('*', name)`
unfoldable pub is_covered : Text → Text → Bool
unfolding same
is_covered cr name = same cr (42 ∷ []) || same cr name

-- The credentials that a line without its blanks gives, if any, by its parts.
unfoldable pub read_parts : Text → Text → List Text → Result Error (Option Credentials)
unfolding is_covered
read_parts vhost user (cr_vhost ∷ (cr_user ∷ (passwd ∷ []))) =
    if is_covered cr_vhost vhost && is_covered cr_user user
    then ok (some (record { user = user; password = passwd }))
    else ok none
read_parts vhost user _ = raise value_error

unfoldable pub read_line : Text → Text → Text → Result Error (Option Credentials)
unfolding read_parts is_given starts_with split
read_line vhost user line =
    if is_given line
    then (if starts_with line (35 ∷ []) then ok none else read_parts vhost user (split 58 line))
    else ok none

-- A line that gives credentials, or raises, ends the loop.
abbrev pub first_found :
    Result Error (Option Credentials)
    → Result Error (Option Credentials)
    → Result Error (Option Credentials)
first_found (raise x) later = raise x
first_found (ok none) later = later
first_found (ok (some c)) later = ok (some c)

-- The loop of `_read_credentials` over the lines of the file.
unfoldable pub read_lines : Text → Text → List Text → Result Error (Option Credentials)
unfolding read_line strip
read_lines vhost user [] = ok none
read_lines vhost user (line ∷ rest) =
    first_found (read_line vhost user (strip line)) (read_lines vhost user rest)

-- `_read_credentials`, where `lines` is `none` if the environment names no file or the file is not
-- there
unfoldable pub read_credentials :
    Text → Text → Option (List Text) → Result Error (Option Credentials)
unfolding read_lines
read_credentials vhost user lines = elim lines [
  | none ↦ ok none
  | some ls ↦ read_lines vhost user ls
]
