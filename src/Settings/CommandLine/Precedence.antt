-- ===== src/Settings/CommandLine/Precedence.antt =====
-- Which of the environment, the file and the arguments an option comes from.
use py_qgis_server.Prelude.{
  String, ◌≡◌, refl, sym, ap, ◌∙◌, true, false, ◌&&◌, ◌⊎◌, Option, none, some, [], inl, inr,
  Bool-cases, All, string_eq, ◌==◌, if◌then◌else◌, ok,
}
use py_qgis_server.Prelude.Actions.{Action, bind_result, when, ◌>>◌}
use py_qgis_server.Components.Config.{Config, Error, find_option}
use py_qgis_server.Dict.{found, get}
use py_qgis_server.Settings.{load_configuration, read_file, set_value}
use py_qgis_server.Settings.Defaults.{commands}
use py_qgis_server.Settings.CommandLine.{Args, World, configure, read_config, set_arg}
use py_qgis_server.Settings.Files.{IsProper, find_option-read_file, has_section-read_file}
use py_qgis_server.Settings.Loading.{IsValid, load_configuration-setting}
use py_qgis_server.Settings.Lookup.{find_option-empty, setting}
use py_qgis_server.Settings.CommandLine.Effects.{
  Gives, Gives-then, Has, Holds, Makes, override, same_override, set_arg-Makes, set_value-Makes,
}

-- The value of an option: of the environment or the default, then of the file, then of an argument.
abbrev pub configured : World → Config → Args → String → String → Option String
configured w file a s o =
    override ("logging" == s && "level" == o)
      (override ("server" == s && "workers" == o)
        (override ("server" == s && "port" == o)
          (override ("server" == s && "interfaces" == o)
            (override ("projects.cache" == s && "rootdir" == o)
              (found (setting w.environ s o commands none) (find_option s o file)) a.rootdir)
            a.interfaces)
          a.port)
        a.workers)
      (if a.debug then some "DEBUG" else none)

-- What the arguments say of the file.
abbrev pub Reads : Args → Config → Type 0
Reads a file = IsProper file × ((a.config ≡ some (ok file)) ⊎ ((a.config ≡ none) × (file ≡ [])))

read_config-Makes :
    (a : Args) (file c : Config) (f : String → String → Option String)
    → Reads a file
    → Has f c
    → Makes (λ s o. found (f s o) (find_option s o file)) (read_config a.config c)
unfolding read_config
read_config-Makes a file c f (proper, inl given) (h, i, j, e) = (
  read_file c file,
  rw given refl,
  (
    has_section-read_file "projects.cache" file c h,
    has_section-read_file "server" file c i,
    has_section-read_file "logging" file c j,
    λ s o.
        find_option-read_file s o file c proper ∙ ap (λ x. found x (find_option s o file)) (e s o),
  ),
)
read_config-Makes a file c f (proper, inr (absent, empty)) (h, i, j, e) = (
  c,
  rw absent refl,
  (
    h,
    i,
    j,
    λ s o. e s o ∙ sym (ap (found (f s o)) (ap (find_option s o) empty ∙ find_option-empty s o)),
  ),
)

debug-Makes :
    (w : World) (a : Args) (c : Config) (f : String → String → Option String)
    → w.valid "DEBUG" ≡ true
    → Has f c
    → Makes
        (λ s o.
          override
            ("logging" == s && "level" == o)
            (f s o)
            (if a.debug then some "DEBUG" else none))
        (when a.debug (set_value w.valid "logging" "level" "DEBUG") c)
debug-Makes w a c f h (i, j, k, e) = elim (Bool-cases a.debug) [
  | inl d ↦ rw d (set_value-Makes w.valid "logging" "level" "DEBUG" c f h k (i, j, k, e))
  | inr d ↦
      rw d
        (c, refl, (i, j, k, λ s o. e s o ∙ same_override ("logging" == s && "level" == o) (f s o)))
]

-- The hypotheses on the values: the parser's test holds of all that are set.
abbrev pub AllValid : World → Args → Type 0
AllValid w a =
    All (IsValid w.valid w.environ) commands
    × Holds w.valid a.rootdir
    × Holds w.valid a.interfaces
    × Holds w.valid a.port
    × Holds w.valid a.workers
    × (w.valid "DEBUG" ≡ true)

module _ (w : World) (a : Args) (file : Config) (valid : AllValid w a) (reads : Reads a file) where
  load-Makes :
      (c : Config)
      → get "DEFAULT" c ≡ none
      → Makes (λ s o. setting w.environ s o commands none) (load_configuration w.valid w.environ c)
  load-Makes c fresh =
      let (c', e, f, g) = load_configuration-setting w.valid w.environ c fresh valid.0 in
      (c', e, (g "projects.cache", g "server", g "logging", f))

  -- What `configure` does with the arguments, after the settings have been loaded.
  abbrev arguments : Action Error Config (Unit {0})
  arguments = do
    read_config a.config
    set_arg w "projects.cache" "rootdir" a.rootdir
    set_arg w "server" "interfaces" a.interfaces
    set_arg w "server" "port" a.port
    set_arg w "server" "workers" a.workers
    when a.debug (set_value w.valid "logging" "level" "DEBUG")

  arguments-Gives :
      Gives (λ s o. setting w.environ s o commands none) (configured w file a) arguments
  arguments-Gives =
      Gives-then (read_config a.config) _
        (record { at = λ c h. read_config-Makes a file c _ reads h })
        (Gives-then (set_arg w "projects.cache" "rootdir" a.rootdir) _
          (record { at = λ c h. set_arg-Makes w _ _ a.rootdir c _ valid.1 h.0 h })
          (Gives-then (set_arg w "server" "interfaces" a.interfaces) _
            (record { at = λ c h. set_arg-Makes w _ _ a.interfaces c _ valid.2 h.1 h })
            (Gives-then (set_arg w "server" "port" a.port) _
              (record { at = λ c h. set_arg-Makes w _ _ a.port c _ valid.3 h.1 h })
              (Gives-then (set_arg w "server" "workers" a.workers) _
                (record { at = λ c h. set_arg-Makes w _ _ a.workers c _ valid.4 h.1 h })
                (record { at = λ c h. debug-Makes w a c _ valid.5 h })))))

  configure-load :
      (c : Config)
      → a.version ≡ false
      → configure w a c ≡ (load_configuration w.valid w.environ >> arguments) c
  unfolding configure
  configure-load c v = rw v refl

  pub configure-Makes :
      (c : Config)
      → get "DEFAULT" c ≡ none
      → a.version ≡ false
      → Makes (configured w file a) (configure w a c)
  configure-Makes c fresh v =
      let (c1, e, has) = load-Makes c fresh in
      let (c2, e', has') = arguments-Gives.at c1 has in
      (c2, configure-load c v ∙ ap (λ r. bind_result r (λ u. arguments)) e ∙ e', has')
