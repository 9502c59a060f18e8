-- ===== src/Settings/CommandLine/Effects.antt =====
-- What the steps of `read_configuration` do to the options.
use py_qgis_server.Prelude.{
  String, ◌≡◌, refl, ap, ◌∙◌, Bool, true, false, ◌&&◌, Option, none, some, inl, inr, Bool-cases,
  string_eq, ◌==◌, if◌then◌else◌, Result, ok,
}
use py_qgis_server.Prelude.Actions.{Action, ◌>>◌}
use py_qgis_server.Components.Config.{Config, Error, find_option, set}
use py_qgis_server.Dict.{Dict, found, put}
use py_qgis_server.Settings.{set_value}
use py_qgis_server.Settings.CommandLine.{World, set_arg}
use py_qgis_server.Settings.Lookup.{has_section, has_section-put, known_section, set-find_option}

-- An option that an argument sets.
abbrev pub override : Bool → Option String → Option String → Option String
override applies old value = if applies then found old value else old

abbrev pub Holds : (String → Bool) → Option String → Type 0
Holds valid none = Unit
Holds valid (some v) = valid v ≡ true

-- A configuration that has some sections, and options that are given by a function.
abbrev pub Has : (String → String → Option String) → Config → Type 0
Has f c =
    (has_section "projects.cache" c ≡ true)
    × (has_section "server" c ≡ true)
    × (has_section "logging" c ≡ true)
    × ((s o : String) → find_option s o c ≡ f s o)

-- The action returns, and gives the options `f`.
abbrev pub Makes : (String → String → Option String) → Result Error (Unit {0}) × Config → Type 0
Makes f r = (c : Config) × (r ≡ (ok tt, c)) × Has f c

-- From options `f` the action returns and gives options `g`.
pub record Gives (f g : String → String → Option String) (m : Action Error Config (Unit {0}))
    : Type 0 where
  pub at : (c : Config) → Has f c → Makes g (m c)

pub Gives-then :
    {f g h : String → String → Option String} (m k : Action Error Config (Unit {0}))
    → Gives f g m
    → Gives g h k
    → Gives f h (m >> k)
Gives-then m k first second = record {
  at = λ c has.
      let (d, e, there) = first.at c has in
      let (c', e', there') = second.at d there in (c', rw e e', there');
}

kept_section :
    (n name : String) (options : Dict String String) (c : Config)
    → has_section n c ≡ true
    → has_section n (put name options c) ≡ true
kept_section n name options c h =
    has_section-put n name options c
    ∙ elim (Bool-cases (name == n)) [ inl e ↦ rw e refl | inr e ↦ rw e h ]

pub set_value-Makes :
    (valid : String → Bool) (name key v : String) (c : Config) (f : String → String → Option String)
    → valid v ≡ true
    → has_section name c ≡ true
    → Has f c
    → Makes
        (λ s o. override (name == s && key == o) (f s o) (some v))
        (set_value valid name key v c)
unfolding set_value set
set_value-Makes valid name key v c f h there (a, b, d, e) =
    let (options, g) = known_section name c there in
    let k = put key v options in
    (
      put name k c,
      rw (h, set, g) refl,
      (
        kept_section "projects.cache" name k c a,
        kept_section "server" name k c b,
        kept_section "logging" name k c d,
        λ s o.
            set-find_option s o name key v options c g
            ∙ ap (λ x. if name == s && key == o then some v else x) (e s o),
      ),
    )

pub same_override : (b : Bool) (old : Option String) → old ≡ override b old none
same_override true old = refl
same_override false old = refl

pub set_arg-Makes :
    (w : World) (name key : String) (value : Option String) (c : Config)
    (f : String → String → Option String)
    → Holds w.valid value
    → has_section name c ≡ true
    → Has f c
    → Makes (λ s o. override (name == s && key == o) (f s o) value) (set_arg w name key value c)
unfolding set_arg
set_arg-Makes w name key none c f h there (a, b, d, e) =
    (c, refl, (a, b, d, λ s o. e s o ∙ same_override (name == s && key == o) (f s o)))
set_arg-Makes w name key (some v) c f h there has =
    set_value-Makes w.valid name key v c f h there has
