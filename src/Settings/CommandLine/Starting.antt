-- ===== src/Settings/CommandLine/Starting.antt =====
-- With what `main` starts the server.
use py_qgis_server.Prelude.{
  String, ◌≡◌, refl, sym, ap, ◌∙◌, true, false, ◌&&◌, ◌⊎◌, none, some, inl, inr, Bool-cases,
  Option-cases, Result-cases, string_eq, ◌==◌, ==_self, arith, Result, ok, raise,
}
use py_qgis_server.Prelude.Actions.{bind_result, pure}
use py_qgis_server.Prelude.Actions.Rules.{bind_ok}
use py_qgis_server.Components.Config.{
  Config, Error, Interpolation, Paths, find_option, set, set_path, validate_config_path,
  value_error,
}
use py_qgis_server.Dict.{Dict, get, put}
use py_qgis_server.Settings.CommandLine.{Args, Launch, World, check_role, main, read_configuration}
use py_qgis_server.Settings.CommandLine.Launching.{own_option, rootdir_configured}
use py_qgis_server.Settings.CommandLine.Precedence.{AllValid, Reads, configured}
use py_qgis_server.Settings.Lookup.{find_option-get, get_option-find_option, look, set-find_option}
use py_qgis_server.Text.{pos}

section_of_option :
    (s o u : String) (c : Config)
    → find_option s o c ≡ some u
    → (options : Dict String String) × (get s c ≡ some options)
section_of_option s o u c h = elim (Option-cases (get s c)) [
  | inl e ↦
      absurd (let f : none ≡ some u = ap (look o) (sym e) ∙ sym (find_option-get s o c) ∙ h in cc)
  | inr (options, e) ↦ (options, e)
]

returned_raised :
    {d c : Config} {x : Error}
    → ◌≡◌ {A = Result Error (Unit {0}) × Config} (ok tt, d) (raise x, c)
    → ⊥
returned_raised e =
    let f : ◌≡◌ {A = Result Error (Unit {0})} (ok tt) (raise _) = ap (λ p. p.0) e in cc

-- The option is a directory, by an absolute path.
abbrev pub Checked : Paths → String → String → String → Result Error (Unit {0}) × Config → Type 0
Checked p s o u r =
    (p.isdir (p.normpath u) ≡ true)
    × (p.isabs (p.normpath u) ≡ true)
    × (find_option s o r.1 ≡ some (p.normpath u))

set_path-Checked :
    (p : Paths) (s o u : String) (c d : Config) (options : Dict String String)
    → get s c ≡ some options
    → set_path p s o u c ≡ (ok tt, d)
    → Checked p s o u (ok tt, d)
unfolding set_path set
set_path-Checked p s o u c d options there h =
    elim (Bool-cases
      (p.isdir (p.normpath u) && (p.isabs (p.normpath u) && p.valid (p.normpath u)))) [
        | inl e ↦
            let v = p.normpath u in
            let r : set_path p s o u c ≡ (ok tt, put s (put o v options) c) =
              rw (e, set, there) refl in
            (
              ground arith,
              ground arith,
              ap (λ x. find_option s o x.1) (sym h ∙ r)
                  ∙ set-find_option s o s o v options c there
                  ∙ rw (==_self s, ==_self o) refl,
            )
        | inr e ↦
            let r : set_path p s o u c ≡ (raise value_error, c) = rw e refl in
            absurd (returned_raised (sym h ∙ r))
      ]

returned_same :
    {A : Type 0} {c d : Config} (k l : A)
    → ◌≡◌ {A = Result Error A × Config} (ok k, c) (ok l, d)
    → k ≡ l
returned_same k l e = ap (λ r. elim r.0 [ ok x ↦ x | raise x ↦ k ]) e

validate-Checked :
    (p : Paths) (interpolate : Interpolation) (s o raw : String) (c d : Config)
    → find_option s o c ≡ some raw
    → validate_config_path p interpolate s o false c ≡ (ok tt, d)
    → (u : String) × (interpolate c s raw ≡ ok u) × Checked p s o u (ok tt, d)
unfolding validate_config_path
validate-Checked p interpolate s o raw c d h e =
    let (options, there) = section_of_option s o raw c h in
    let g = get_option-find_option s o raw c h in
    elim (Result-cases (interpolate c s raw)) [
      | inl (x, f) ↦
          let r : validate_config_path p interpolate s o false c ≡ (raise x, c) =
            rw (validate_config_path, there, g, f) refl in
          absurd (returned_raised (sym e ∙ r))
      | inr (u, f) ↦
          let test : (u == "" && false) ≡ false = ground arith in
          let r : validate_config_path p interpolate s o false c ≡ set_path p s o u c =
            rw (validate_config_path, there, g, f, test) refl in
          (u, f, set_path-Checked p s o u c d options there (sym r ∙ e))
    ]

module _ (w : World) (a : Args) (k : Launch) (c : Config) where
  proxy_role : a.proxy ≡ true → check_role w a k c ≡ (ok (record k { workers = some (pos 0) }), c)
  unfolding check_role
  proxy_role p = rw p refl

  server_role :
      a.proxy ≡ false
      → check_role w a k c
        ≡ bind_result
            (validate_config_path w.paths w.interpolate "projects.cache" "rootdir" false c)
            (λ t. pure k)
  unfolding check_role
  server_role p = rw p refl

module _ (w : World) (a : Args) (file : Config) (valid : AllValid w a) (reads : Reads a file) where
  -- The server is started with no worker if it only runs as a proxy; otherwise with the workers of
  -- the configuration, and the directory of projects, as it was configured by an argument, the file or
  -- the environment, is in its normal form, and with its references replaced, an absolute path of a
  -- directory, which the option then has. The section DEFAULT was not there before.
  pub main-Checked :
      (c d : Config) (l : Launch)
      → get "DEFAULT" c ≡ none
      → a.version ≡ false
      → main w a c ≡ (ok l, d)
      → ((a.proxy ≡ true) × (l.workers ≡ some (pos 0)))
        ⊎ ((raw u : String) × (a.proxy ≡ false)
            × (configured w file a "projects.cache" "rootdir" ≡ some raw)
            × (w.interpolate (read_configuration w a c).1 "projects.cache" raw ≡ ok u)
            × Checked w.paths "projects.cache" "rootdir" u (ok tt, d)
            × ((read_configuration w a c).0 ≡ ok l))
  unfolding main
  main-Checked c d l fresh v e =
      let (k, c1, f, g) = bind_ok (read_configuration w a c) (check_role w a) l d e in
      elim (Bool-cases a.proxy) [
        | inl p ↦
            let r = sym (proxy_role w a k c1 p) ∙ g in
            inl (p, ap (λ x. x.workers) (sym (returned_same _ l r)))
        | inr p ↦
            let (raw, q) = rootdir_configured w file a in
            let there : find_option "projects.cache" "rootdir" c1 ≡ some raw =
              ap (λ r. find_option "projects.cache" "rootdir" r.1) (sym f)
              ∙ own_option w a file valid reads c fresh v "projects.cache" "rootdir"
              ∙ q in
            let (t, c2, m, n) =
              bind_ok
                (validate_config_path w.paths w.interpolate "projects.cache" "rootdir" false c1)
                (λ t. pure k) l d (sym (server_role w a k c1 p) ∙ g) in
            let (u, i, checked) =
              validate-Checked w.paths w.interpolate "projects.cache" "rootdir" raw c1 d there
                (m ∙ ap (λ x. (ok tt, x.1)) n) in
            inr (
              raw,
              u,
              p,
              q,
              ap (λ r. w.interpolate r.1 "projects.cache" raw) f ∙ i,
              checked,
              ap (λ r. r.0) f ∙ ap ok (returned_same k l n),
            )
      ]
