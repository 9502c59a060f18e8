-- ===== src/Pages/Examples.antt =====
-- The pages of a server that was started by arguments and a file.
use py_qgis_server.Prelude.{◌≡◌, refl, [], ◌∷◌, ok, raise, string_eq, inl}
use py_qgis_server.Dict.{get}
use py_qgis_server.Pages.{
  Json, Site, config_path, get_landing_page, get_status, import_error, null, reset, type_error,
}
use py_qgis_server.Pages.Served.{get_landing_page-configured}
use py_qgis_server.Settings.CommandLine.{read_configuration}
use py_qgis_server.Settings.Defaults.{commands}
use py_qgis_server.Settings.Examples.{All-IsValid, args, file, world}

abbrev site : Site
site = record {
  protocol = "http";
  host = "localhost";
  join = λ protocol host path. host;
  show = λ n. "33400";
  config = (read_configuration world args []).1;
  config_json = null;
  environ_json = null;
  stats = reset 0;
  tornado_version = "6";
  version = "1";
  qgis = import_error;
}

-- "/status/stats/"
get_status_stats :
    get_status site
      (47 ∷ 115 ∷ 116 ∷ 97 ∷ 116 ∷ 117 ∷ 115 ∷ 47 ∷ 115 ∷ 116 ∷ 97 ∷ 116 ∷ 115 ∷ 47 ∷ [])
    ≡ raise type_error
unfolding get_status
get_status_stats = refl

get_status_config : get_status site config_path ≡ ok null
unfolding get_status
get_status_config = refl

landing_page_served : (page : Json) × (get_landing_page site ≡ ok page)
unfolding get
landing_page_served =
    get_landing_page-configured site world args file [] refl
      (All-IsValid world.environ commands, refl, tt, refl, tt, refl)
      (((refl, tt), ((refl, (refl, tt)), tt)), inl refl) refl refl (λ e. cc)
