-- ===== src/Settings/CommandLine/Launching.antt =====
-- What `read_configuration` and `main` leave of the options, and what the server is started with.
use py_qgis_server.Prelude.{
  String, ◌≡◌, refl, ap, ◌∙◌, false, Option, none, some, inl, inr, Option-cases, Result-cases,
  string_eq, if◌then◌else◌,
}
use py_qgis_server.Prelude.Actions.{bind_result}
use py_qgis_server.Prelude.Actions.Rules.{Keeps, bind_result-Keeps, keeps_rules}
use py_qgis_server.Components.Config.{Config, find_option, get_option, get_impl, get_value}
use py_qgis_server.Dict.{found, get}
use py_qgis_server.Settings.Lookup.{get_option-find_option}
use py_qgis_server.Settings.CommandLine.{
  Args, World, get_level, read_configuration, read_options, read_server, server_option,
  setup_log_handler, to_number,
}
use py_qgis_server.Settings.CommandLine.Precedence.{AllValid, Reads, configure-Makes, configured}

module _ (w : World) where
  get_level_kept :
      (v : String) (c : Config) → find_option "logging" "level" c ≡ some v → (get_level w c).1 ≡ c
  unfolding get_level get_impl get_value
  get_level_kept v c h = elim (Result-cases (w.interpolate c "logging" v)) [
    | inl (x, e) ↦ rw (get_value, get_option-find_option "logging" "level" v c h, e) refl
    | inr (t, e) ↦ rw (get_value, get_option-find_option "logging" "level" v c h, e) refl
  ]

  setup_log_handler-Keeps : (level : String) → Keeps (λ c. c) (setup_log_handler w level)
  unfolding setup_log_handler
  setup_log_handler-Keeps level = search (keeps_rules) depth 10

  server_option-Keeps : (name : String) → Keeps (λ c. c) (server_option w name)
  unfolding server_option
  server_option-Keeps name = record {
    at = λ c. elim (Option-cases (get_option "server" name c)) [
      | inl e ↦ rw (server_option, e) refl
      | inr (v, e) ↦ elim (Result-cases (w.interpolate c "server" v)) [
        | inl (x, f) ↦ rw (server_option, e, f) refl
        | inr (t, f) ↦ rw (server_option, e, f) refl
      ]
    ];
  }

  to_number-Keeps : (t : Option String) → Keeps (λ c. c) (to_number w t)
  unfolding to_number
  to_number-Keeps none = record { at = λ c. refl }
  to_number-Keeps (some t) = record {
    at = λ c. elim (Result-cases (w.to_int t)) [
      | inl (x, f) ↦ rw (to_number, f) refl
      | inr (n, f) ↦ rw (to_number, f) refl
    ];
  }

  read_server-Keeps : (level : String) → Keeps (λ c. c) (read_server w level)
  unfolding read_server
  read_server-Keeps level =
      search (keeps_rules, setup_log_handler-Keeps, server_option-Keeps, to_number-Keeps) depth 30

  read_options_kept :
      (v : String) (c : Config)
      → find_option "logging" "level" c ≡ some v
      → (read_options w c).1 ≡ c
  unfolding read_options
  read_options_kept v c h =
      bind_result-Keeps (get_level w c) (read_server w) read_server-Keeps ∙ get_level_kept v c h

found-some : (v : String) (o : Option String) → (u : String) × (found (some v) o ≡ some u)
found-some v none = (v, refl)
found-some v (some u) = (u, refl)

pub found-any :
    (o p : Option String) → (u : String) × (o ≡ some u) → (u : String) × (found o p ≡ some u)
found-any o p (u, e) = let (u', f) = found-some u p in (u', ap (λ x. found x p) e ∙ f)

level_configured :
    (w : World) (file : Config) (a : Args)
    → (u : String) × (configured w file a "logging" "level" ≡ some u)
level_configured w file a =
    found-any _ (if a.debug then some "DEBUG" else none)
      (found-any _ (find_option "logging" "level" file) (_, refl))

pub rootdir_configured :
    (w : World) (file : Config) (a : Args)
    → (u : String) × (configured w file a "projects.cache" "rootdir" ≡ some u)
rootdir_configured w file a =
    found-any _ a.rootdir (found-any _ (find_option "projects.cache" "rootdir" file) (_, refl))

module _ (w : World) (a : Args) (file : Config) (valid : AllValid w a) (reads : Reads a file) where
  pub own_option :
      (c : Config)
      → get "DEFAULT" c ≡ none
      → a.version ≡ false
      → (s o : String) → find_option s o (read_configuration w a c).1 ≡ configured w file a s o
  unfolding read_configuration
  own_option c fresh v s o =
      let (d, e, h) = configure-Makes w a file valid reads c fresh v in
      let (u, f) = level_configured w file a in
      ap (λ r. find_option s o (bind_result r (λ x. read_options w)).1) e
      ∙ ap (find_option s o) (read_options_kept w u d (h.3 "logging" "level" ∙ f))
      ∙ h.3 s o
