-- ===== src/Settings/Loading.antt =====
-- `load_configuration` succeeds where its values pass the parser's test, and sets each option once.
use py_qgis_server.Prelude.{
  String, ◌≡◌, refl, sym, ap, ◌∙◌, Bool, true, false, ◌&&◌, Option, none, some, List, [], ◌∷◌,
  contains, inl, inr, Bool-cases, All, string_eq, ◌==◌, ==_iff, arith, if◌then◌else◌, Result, ok,
}
use py_qgis_server.Components.Config.{Config, Error, find_option, set}
use py_qgis_server.Dict.{get, put}
use py_qgis_server.Settings.{
  clear, apply, set_value, load_configuration, new_section, run, value_of,
}
use py_qgis_server.Settings.Defaults.{Command, commands, option, section}
use py_qgis_server.Settings.Lookup.{
  find_option-empty, find_option-get, find_option-put, has_section, has_section-put, is_ordered,
  known_section, look, no_section, sections, set-find_option, setting,
}

abbrev Knows : List String → Config → Type 0
Knows known c = (n : String) → has_section n c ≡ contains n known

module _ (valid : String → Bool) (environ : String → Option String) where
  -- The command's value passes the parser's test.
  abbrev pub IsValid : Command → Type 0
  IsValid (section name) = Unit
  IsValid (option name key source) = valid (value_of environ source) ≡ true

  -- What commands do when none raises.
  abbrev Did : List Command → List String → Config → Result Error (Unit {0}) × Config → Type 0
  Did cs known c r =
      (c' : Config) × (r ≡ (ok tt, c'))
      × ((s o : String) → find_option s o c' ≡ setting environ s o cs (find_option s o c))
      × Knows (sections cs known) c'

  section-Did :
      (name : String) (known : List String) (c : Config)
      → Knows known c
      → contains name known ≡ false
      → Did (section name ∷ []) known c (apply valid environ (section name) c)
  unfolding apply new_section
  section-Did name known c h new =
      let gone : get name c ≡ none = no_section name c (h name ∙ new) in
      (
        put name [] c,
        rw (new_section, gone) refl,
        λ s o. find_option-put s o name [] c ∙ elim (Bool-cases (name == s)) [
          | inl e ↦
              let f : find_option s o c ≡ none =
                find_option-get s o c
                ∙ ap (λ n. look o (get n c)) (sym ((==_iff name s).0 e))
                ∙ ap (look o) gone in
              rw (e, f) (unfold get in refl)
          | inr e ↦ rw e refl
        ],
        λ n. has_section-put n name [] c ∙ ap (λ b. if name == n then true else b) (h n),
      )

  option-Did :
      (name key : String) (v : String) (known : List String) (c : Config)
      → Knows known c
      → contains name known ≡ true
      → (c' : Config) × (set name key v c ≡ (ok tt, c'))
        × ((s o : String)
            → find_option s o c' ≡ (if name == s && key == o then some v else find_option s o c))
        × Knows known c'
  unfolding set
  option-Did name key v known c h old =
      let (options, there) = known_section name c (h name ∙ old) in
      (
        put name (put key v options) c,
        rw (set, there) refl,
        λ s o. set-find_option s o name key v options c there,
        λ n. has_section-put n name (put key v options) c ∙ elim (Bool-cases (name == n)) [
          | inl e ↦ rw (e, sym old) (ap (λ k. contains k known) ((==_iff name n).0 e))
          | inr e ↦ rw e (h n)
        ],
      )

  command-Did :
      (cmd : Command) (known : List String) (c : Config)
      → Knows known c
      → is_ordered known (cmd ∷ []) ≡ true
      → IsValid cmd
      → Did (cmd ∷ []) known c (apply valid environ cmd c)
  unfolding apply set_value
  command-Did (section name) known c h k v = section-Did name known c h (ground arith)
  command-Did (option name key source) known c h k v =
      let (c', e, f, g) = option-Did name key (value_of environ source) known c h (ground arith) in
      (c', rw v e, f, g)

  is_ordered-cons :
      (cmd : Command) (cs : List Command) (known : List String)
      → is_ordered known (cmd ∷ cs) ≡ true
      → (is_ordered known (cmd ∷ []) ≡ true) × (is_ordered (sections (cmd ∷ []) known) cs ≡ true)
  is_ordered-cons (section name) cs known h = (ground arith, ground arith)
  is_ordered-cons (option name key source) cs known h = (ground arith, ground arith)

  setting-cons :
      (cmd : Command) (cs : List Command) (s o : String) (old : Option String)
      → setting environ s o (cmd ∷ cs) old
        ≡ setting environ s o cs (setting environ s o (cmd ∷ []) old)
  setting-cons cmd cs s o old = refl

  sections-cons :
      (cmd : Command) (cs : List Command) (known : List String)
      → sections (cmd ∷ cs) known ≡ sections cs (sections (cmd ∷ []) known)
  sections-cons (section name) cs known = refl
  sections-cons (option name key source) cs known = refl

  -- Commands that add each section once, and before its options, all succeed when their values pass
  -- the test; each option then has the value that is set last.
  commands-Did :
      (cs : List Command) (known : List String) (c : Config)
      → Knows known c
      → is_ordered known cs ≡ true
      → All IsValid cs
      → Did cs known c (run valid environ cs c)
  unfolding run
  commands-Did [] known c h k v = (c, refl, λ s o. refl, h)
  commands-Did (cmd ∷ cs) known c h k (v, vs) =
      let (k0, k1) = is_ordered-cons cmd cs known k in
      let (d, e, f, g) = command-Did cmd known c h k0 v in
      let (c', e', f', g') = commands-Did cs (sections (cmd ∷ []) known) d g k1 vs in
      (
        c',
        rw e e',
        λ s o. f' s o ∙ ap (setting environ s o cs) (f s o),
        λ n. g' n ∙ ap (contains n) (sym (sections-cons cmd cs known)),
      )

-- If every value passes the parser's test, `load_configuration` returns, whatever the configuration
-- was outside of the section DEFAULT, which was not there, and every option has the value of the
-- environment or the default that the code sets, and no other option is there.
pub load_configuration-setting :
    (valid : String → Bool) (environ : String → Option String) (c : Config)
    → get "DEFAULT" c ≡ none
    → All (IsValid valid environ) commands
    → (c' : Config) × (load_configuration valid environ c ≡ (ok tt, c'))
      × ((s o : String) → find_option s o c' ≡ setting environ s o commands none)
      × ((n : String) → has_section n c' ≡ contains n (sections commands []))
unfolding load_configuration
load_configuration-setting valid environ c fresh v =
    let (c', e, f, g) =
      commands-Did valid environ commands [] [] (λ n. unfold get in refl) refl v in
    let cleared : clear c ≡ [] = unfold clear in rw (clear, fresh) refl in
    (
      c',
      ap (run valid environ commands) cleared ∙ e,
      λ s o. f s o ∙ ap (setting environ s o commands) (find_option-empty s o),
      g,
    )
