-- ===== src/Pages.antt =====
-- The pages of the server: the status (src/pyqgisserver/handlers/statushandler.py), the landing page
-- (landingpage.py) and the statistics (src/pyqgisserver/stats.py).
pub mod Served
mod Examples
use py_qgis_server.Prelude.{
  ℕ, suc, ◌+◌, ◌-◌, String, Bool, true, false, Option, none, some, List, [], ◌∷◌, ◌++◌, string_eq,
  nat_eq, ◌==◌, if◌then◌else◌, Result, ok, raise,
}
use py_qgis_server.Components.Config.{Config, get_option}
use py_qgis_server.Dict
use py_qgis_server.Dict.{Dict, update}
use py_qgis_server.Text.{Text, same, strip_right}

-- What `json.dumps` writes.
mutual
  pub data Json : Type 0 where
    null : Json
    text : String → Json
    number : ℕ → Json
    object : Fields → Json
    array : Items → Json

  pub data Fields : Type 0 where
    no_field : Fields
    field : String → Json → Fields → Fields

  pub data Items : Type 0 where
    no_item : Items
    item : Json → Items → Items

-- `TypeError` of the HTTP server, `KeyError`, and an exception of QGIS that is not caught.
pub data Error : Type 0 where
  type_error key_error qgis_error : Error

-- `Stats`; its clock is in seconds.
pub record Stats : Type 0 where
  pub num_requests : ℕ
  pub num_errors : ℕ
  pub start_time : ℕ

-- `Stats.reset`
abbrev pub reset : ℕ → Stats
reset now = record { num_requests = 0; num_errors = 0; start_time = now }

-- `Stats.json`, which no handler of this program calls; `isoformat` writes a date.
unfoldable pub stats_json : (ℕ → String) → ℕ → Stats → Json
stats_json isoformat now s = object (
    field "num_request" (number s.num_requests) (
      field "num_errors" (number s.num_errors) (
        field "start_date" (text (isoformat s.start_time))
          (field "uptime" (number (now - s.start_time)) no_field))))

-- What a handler gives `write_json`: a dictionary, or the object of the statistics.
pub data Payload : Type 0 where
  json : Json → Payload
  statistics : Stats → Payload

-- `write_json`: only a dictionary is put in JSON, and the HTTP server does not write another object
unfoldable pub write_json : Payload → Result Error Json
write_json (json v) = ok v
write_json (statistics s) = raise type_error

-- What the handlers read. The references in the options of `metadata` are not followed. A version of QGIS is its number and its name; importing it may fail, with
-- `ImportError` or with another exception.
pub data Import : Type 0 where
  imported : ℕ → String → Import
  import_error other_exception : Import

pub record Site : Type 0 where
  pub protocol : String
  pub host : String
  pub join : String → String → String → String
  pub show : ℕ → String
  pub config : Config
  pub config_json : Json
  pub environ_json : Json
  pub stats : Stats
  pub tornado_version : String
  pub version : String
  pub qgis : Import

-- The paths of the status pages.
abbrev pub config_path : Text
config_path = 47 ∷ 115 ∷ 116 ∷ 97 ∷ 116 ∷ 117 ∷ 115 ∷ 47 ∷ 99 ∷ 111 ∷ 110 ∷ 102 ∷ 105 ∷ 103 ∷ []

abbrev pub env_path : Text
env_path = 47 ∷ 115 ∷ 116 ∷ 97 ∷ 116 ∷ 117 ∷ 115 ∷ 47 ∷ 101 ∷ 110 ∷ 118 ∷ []

abbrev pub stats_path : Text
stats_path = 47 ∷ 115 ∷ 116 ∷ 97 ∷ 116 ∷ 117 ∷ 115 ∷ 47 ∷ 115 ∷ 116 ∷ 97 ∷ 116 ∷ 115 ∷ []

abbrev pub versions_path : Text
versions_path =
    47 ∷ 115 ∷ 116 ∷ 97 ∷ 116 ∷ 117 ∷ 115 ∷ 47 ∷ 118 ∷ 101 ∷ 114 ∷ 115 ∷ 105 ∷ 111 ∷ 110 ∷ 115 ∷ []

module _ (site : Site) where
  -- `StatusHandler.get_versions`, with the fields that follow
  unfoldable pub versions : Fields → Fields
  versions rest = elim site.qgis [
    | imported n name ↦ field "tornado_ver" (text site.tornado_version) (
        field "version" (text site.version)
          (field "qgis_version" (text (site.show n)) (field "qgis_release" (text name) rest)))
    | _ ↦ field "tornado_ver" (text site.tornado_version) (
        field "version" (text site.version)
          (field "qgis_version" (text "n/a") (field "qgis_release" (text "n/a") rest)))
  ]

  -- `_link`
  unfoldable pub link : String → String → String → Json
  link path title rel = object (
      field "href" (text (site.join site.protocol site.host path)) (
        field "rel" (text rel)
          (field "title" (text title) (field "type" (text "application/json") no_field))))

  unfoldable pub links : Json
  unfolding link
  links = array (
      item (link "/status/config" "Server configuration" "status") (
        item (link "/status/env" "Execution environment" "status") (
          item (link "/status/versions" "Versions" "status")
            (item (link "/status/" "Server status" "self") no_item))))

  -- What `StatusHandler.get` writes, by the path without the slashes at its end.
  unfoldable pub status_payload : Text → Payload
  unfolding versions links same
  status_payload path =
      if same path config_path
      then json site.config_json
      else if same path env_path
      then json site.environ_json
      else if same path stats_path
      then statistics site.stats
      else if same path versions_path
      then json (object (versions no_field))
      else json (object (versions (field "links" links no_field)))

  -- `StatusHandler.get`; 47 is the slash
  unfoldable pub get_status : Text → Result Error Json
  unfolding status_payload write_json strip_right
  get_status path = write_json (status_payload (strip_right (λ c. c == 47) path))

  -- `PingHandler.get`
  unfoldable pub get_ping : Result Error Json
  unfolding write_json
  get_ping = write_json (json (object (field "status" (text "ok") no_field)))

  -- `self._metadata.get(name)`
  unfoldable pub metadata : String → Json
  unfolding get_option
  metadata name = elim (get_option "metadata" name site.config) [ none ↦ null | some v ↦ text v ]

  -- `self._metadata[name]`
  unfoldable pub metadata_item : String → Result Error Json
  unfolding get_option
  metadata_item name = elim (get_option "metadata" name site.config) [
    | none ↦ raise key_error
    | some v ↦ ok (text v)
  ]

  -- `LandingPage.qgis_version_info`, where only `ImportError` is caught
  unfoldable pub qgis_version_info : Result Error (Json × Json)
  qgis_version_info = elim site.qgis [
    | imported n name ↦ ok (number n, text name)
    | import_error ↦ ok (text "n/a", text "n/a")
    | other_exception ↦ raise qgis_error
  ]

  -- `LandingPage.service_infos`
  unfoldable pub service_infos : Json × Json → Json
  unfolding metadata
  service_infos (qgis_version, qgis_release) = object (
      field "title" (metadata "title") (
        field "description" (metadata "description") (
          field "termsOfService" (metadata "terms_of_service") (
            field "contact"
              (object (
                field "name" (metadata "contact_name") (
                  field "url" (metadata "contact_url")
                    (field "email" (metadata "contact_email") no_field))))
              (field "licence"
                (object (
                  field "name" (metadata "licence_name")
                    (field "url" (metadata "licence_url") no_field)))
                (field "version" (text site.version) (
                  field "x-qgis-version" qgis_version
                    (field "x-qgis-release" qgis_release no_field))))))))

  -- `LandingPage.external_doc`
  unfoldable pub external_doc : Result Error Json
  unfolding metadata_item
  external_doc = elim (metadata_item "external_doc_description") [
    | raise x ↦ raise x
    | ok description ↦ elim (metadata_item "external_doc_url") [
      | raise x ↦ raise x
      | ok url ↦ ok (object (field "description" description (field "url" url no_field)))
    ]
  ]

  -- `LandingPage.get`
  unfoldable pub get_landing_page : Result Error Json
  unfolding qgis_version_info service_infos external_doc write_json
  get_landing_page = elim qgis_version_info [
    | raise x ↦ raise x
    | ok info ↦ elim external_doc [
      | raise x ↦ raise x
      | ok doc ↦ write_json (
          json (
            object (
              field "servers"
                (array (
                  item (object (field "url" (text (site.join site.protocol site.host "")) no_field))
                    no_item))
                (field "info" (service_infos info)
                  (field "externalDocs" doc (field "paths" (object no_field) no_field))))))
    ]
  ]
