-- ===== src/Pages/Served.antt =====
-- Which pages are served.
use py_qgis_server.Prelude.{
  ◌≡◌, ◌≢◌, refl, ap, ◌∙◌, String, false, none, some, nat_eq, ◌==◌, inl, inr, Bool-cases, arith, ok,
  raise, string_eq,
}
use py_qgis_server.Dict.{get}
use py_qgis_server.Components.Config.{Config, find_option}
use py_qgis_server.Pages.{
  Import, Json, Site, config_path, env_path, external_doc, get_landing_page, get_status,
  import_error, imported, number, text, other_exception, metadata_item, qgis_version_info,
  stats_path, status_payload, type_error, versions_path, write_json,
}
use py_qgis_server.Settings.CommandLine.{Args, World, read_configuration}
use py_qgis_server.Settings.CommandLine.Launching.{found-any, own_option}
use py_qgis_server.Settings.CommandLine.Precedence.{AllValid, Reads, configured}
use py_qgis_server.Settings.Lookup.{get_option-find_option}
use py_qgis_server.Text.{Text, same, strip_right}
use py_qgis_server.Text.Parts.{same_iff}

-- The path without the slashes at its end.
abbrev pub trimmed : Text → Text
trimmed = strip_right (λ c. c == 47)

module _ (site : Site) where
  other_page :
      (path : Text)
      → path ≢ stats_path
      → (page : Json) × (write_json (status_payload site path) ≡ ok page)
  unfolding write_json status_payload
  other_page path h =
      let other : same path stats_path ≡ false = ground (arith, same_iff path stats_path) in
      elim (Bool-cases (same path config_path)) [
        | inl a ↦ rw a (site.config_json, refl)
        | inr a ↦ elim (Bool-cases (same path env_path)) [
          | inl b ↦ rw (a, b) (site.environ_json, refl)
          | inr b ↦ elim (Bool-cases (same path versions_path)) [
            | inl d ↦ rw (a, b, other, d) (_, refl)
            | inr d ↦ rw (a, b, other, d) (_, refl)
          ]
        ]
      ]

  -- The page of the statistics is never served: whatever they are, writing them raises `TypeError`.
  -- Every other path gets a page.
  pub get_status-Error :
      (path : Text)
      → (trimmed path ≡ stats_path → get_status site path ≡ raise type_error)
        × (trimmed path ≢ stats_path → (page : Json) × (get_status site path ≡ ok page))
  unfolding get_status
  get_status-Error path =
      (λ h. rw h (unfold status_payload same write_json in refl), λ h. other_page (trimmed path) h)

-- The documentation that the configuration names.
doc_configured :
    (w : World) (file : Config) (a : Args)
    → ((u : String) × (configured w file a "metadata" "external_doc_description" ≡ some u))
      × ((u : String) × (configured w file a "metadata" "external_doc_url" ≡ some u))
doc_configured w file a = (
  found-any _ (find_option "metadata" "external_doc_description" file) (_, refl),
  found-any _ (find_option "metadata" "external_doc_url" file) (_, refl),
)

info_of :
    (site : Site) (q : Import)
    → site.qgis ≡ q
    → q ≢ other_exception
    → (info : Json × Json) × (qgis_version_info site ≡ ok info)
unfolding qgis_version_info
info_of site (imported n name) e h = ((number n, text name), rw (qgis_version_info, e) refl)
info_of site import_error e h = ((text "n/a", text "n/a"), rw (qgis_version_info, e) refl)
info_of site other_exception e h = absurd (h refl)

external_doc_ok :
    (site : Site) (u v : String)
    → find_option "metadata" "external_doc_description" site.config ≡ some u
    → find_option "metadata" "external_doc_url" site.config ≡ some v
    → (doc : Json) × (external_doc site ≡ ok doc)
unfolding external_doc metadata_item
external_doc_ok site u v h g =
    rw
      (
        external_doc,
        metadata_item,
        get_option-find_option "metadata" "external_doc_description" u site.config h,
        get_option-find_option "metadata" "external_doc_url" v site.config g,
      )
      (_, refl)

-- With any configuration that `read_configuration` leaves, the landing page is served, unless importing
-- QGIS raises something else than `ImportError`: what it needs of the configuration is always there.
pub get_landing_page-configured :
    (site : Site) (w : World) (a : Args) (file c : Config)
    → get "DEFAULT" c ≡ none
    → AllValid w a
    → Reads a file
    → a.version ≡ false
    → site.config ≡ (read_configuration w a c).1
    → site.qgis ≢ other_exception
    → (page : Json) × (get_landing_page site ≡ ok page)
unfolding get_landing_page
get_landing_page-configured site w a file c fresh valid reads v same_config h =
    let ((u, p), (t, q)) = doc_configured w file a in
    let option_is : (o : String)
        → find_option "metadata" o site.config ≡ configured w file a "metadata" o =
      λ o.
        ap (find_option "metadata" o) same_config
        ∙ own_option w a file valid reads c fresh v "metadata" o in
    let (doc, d) =
      external_doc_ok site u t (option_is "external_doc_description" ∙ p)
        (option_is "external_doc_url" ∙ q) in
    let (info, e) = info_of site site.qgis refl h in
    rw (get_landing_page, e, d) (_, unfold write_json in refl)
