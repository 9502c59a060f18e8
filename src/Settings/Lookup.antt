-- ===== src/Settings/Lookup.antt =====
-- What the options are after `load_configuration`, and after a file has been read.
use py_qgis_server.Prelude.{
  String, ◌≡◌, refl, sym, ap, ◌∙◌, Bool, true, false, not, ◌&&◌, Option, none, some, List, [], ◌∷◌,
  contains, inl, inr, Bool-cases, Option-cases, string_eq, ◌==◌, ==_iff, if◌then◌else◌,
}
use py_qgis_server.Components.Config.{Config, find_option, get_option}
use py_qgis_server.Dict.{Dict, get, put}
use py_qgis_server.Dict.Laws.{get-put}
use py_qgis_server.Settings.{value_of}
use py_qgis_server.Settings.Defaults.{Command, option, section}

-- The option of a section, if it is there.
abbrev pub look : String → Option (Dict String String) → Option String
look o r = elim r [ none ↦ none | some options ↦ get o options ]

-- What a command leaves of the value that an option had.
abbrev pub assigned :
    (String → Option String) → String → String → Command → Option String → Option String
assigned environ s o (section name) old = old
assigned environ s o (option name key source) old =
    if name == s && key == o then some (value_of environ source) else old

-- The last value that is set, or else the one before.
abbrev pub setting :
    (String → Option String) → String → String → List Command → Option String → Option String
setting environ s o [] old = old
setting environ s o (c ∷ cs) old = setting environ s o cs (assigned environ s o c old)

-- The sections that are added.
abbrev pub sections : List Command → List String → List String
sections [] known = known
sections (section name ∷ cs) known = sections cs (name ∷ known)
sections (option name key source ∷ cs) known = sections cs known

-- Every section is added once, and before its options are set.
abbrev pub is_ordered : List String → List Command → Bool
is_ordered known [] = true
is_ordered known (section name ∷ cs) = not (contains name known) && is_ordered (name ∷ known) cs
is_ordered known (option name key source ∷ cs) = contains name known && is_ordered known cs

abbrev pub has_section : String → Config → Bool
has_section name c = elim (get name c) [ none ↦ false | some options ↦ true ]

pub find_option-empty : (s o : String) → find_option s o [] ≡ none
unfolding find_option get
find_option-empty s o = refl

module _ (s o : String) where
  pub find_option-get : (c : Config) → find_option s o c ≡ look o (get s c)
  unfolding find_option
  find_option-get c = refl

  pub find_option-put :
      (name : String) (options : Dict String String) (c : Config)
      → find_option s o (put name options c)
        ≡ (if name == s then get o options else find_option s o c)
  find_option-put name options c =
      find_option-get (put name options c)
      ∙ ap (look o) (get-put name s options c)
      ∙ elim (Bool-cases (name == s)) [ inl e ↦ rw e refl | inr e ↦ rw e (sym (find_option-get c)) ]

  -- `set` in a section that is there.
  pub set-find_option :
      (name key v : String) (options : Dict String String) (c : Config)
      → get name c ≡ some options
      → find_option s o (put name (put key v options) c)
        ≡ (if name == s && key == o then some v else find_option s o c)
  set-find_option name key v options c h =
      find_option-put name (put key v options) c ∙ elim (Bool-cases (name == s)) [
        | inl e ↦
            let f : find_option s o c ≡ get o options =
              find_option-get c
              ∙ ap (λ n. look o (get n c)) (sym ((==_iff name s).0 e))
              ∙ ap (look o) h in
            rw (e, get-put key o v options, f) refl
        | inr e ↦ rw e refl
      ]

pub has_section-put :
    (n name : String) (options : Dict String String) (c : Config)
    → has_section n (put name options c) ≡ (if name == n then true else has_section n c)
has_section-put n name options c =
    ap (λ r. elim r [ none ↦ false | some old ↦ true ]) (get-put name n options c)
    ∙ elim (Bool-cases (name == n)) [ inl e ↦ rw e refl | inr e ↦ rw e refl ]

unknown :
    (n : String) (c : Config) (options : Dict String String)
    → get n c ≡ some options
    → has_section n c ≡ false
    → ⊥
unknown n c options e h =
    let f : true ≡ false = ap (λ r. elim r [ none ↦ false | some old ↦ true ]) (sym e) ∙ h in cc

pub no_section : (n : String) (c : Config) → has_section n c ≡ false → get n c ≡ none
no_section n c h = elim (Option-cases (get n c)) [
  | inl e ↦ e
  | inr (options, e) ↦ absurd (unknown n c options e h)
]

pub known_section :
    (n : String) (c : Config)
    → has_section n c ≡ true
    → (options : Dict String String) × (get n c ≡ some options)
known_section n c h = elim (Option-cases (get n c)) [
  | inl e ↦
      absurd (
        let f : false ≡ true = ap (λ r. elim r [ none ↦ false | some old ↦ true ]) (sym e) ∙ h in
        cc)
  | inr (options, e) ↦ (options, e)
]

-- An option that the section has itself comes before that of DEFAULT.
pub get_option-find_option :
    (s o v : String) (c : Config) → find_option s o c ≡ some v → get_option s o c ≡ some v
unfolding find_option get_option
get_option-find_option s o v c h = elim (Option-cases (get s c)) [
  | inl e ↦
      absurd (let f : none ≡ some v = ap (look o) (sym e) ∙ sym (find_option-get s o c) ∙ h in cc)
  | inr (options, e) ↦
      let f : get o options ≡ some v = ap (look o) (sym e) ∙ sym (find_option-get s o c) ∙ h in
      rw (get_option, e, f) refl
]

-- What a configuration gives for an option, by the options that its sections have themselves.
abbrev pub inherited : Bool → Option String → Option String → Option String
inherited false own general = none
inherited true (some v) general = some v
inherited true none general = general

own_or_general :
    (own general : Option String)
    → (elim own [ some text ↦ some text | none ↦ general ]) ≡ inherited true own general
own_or_general none general = refl
own_or_general (some v) general = refl

by_section :
    (o : String) (r : Option (Dict String String)) (general : Option String)
    → (elim r [
      | none ↦ none
      | some options ↦ elim (get o options) [ some text ↦ some text | none ↦ general ]
    ])
      ≡ inherited (elim r [ none ↦ false | some options ↦ true ]) (look o r) general
by_section o none general = refl
by_section o (some options) general = own_or_general (get o options) general

pub get_option-inherited :
    (s o : String) (c : Config)
    → get_option s o c ≡ inherited (has_section s c) (find_option s o c) (find_option "DEFAULT" o c)
unfolding find_option get_option
get_option-inherited s o c = by_section o (get s c) (find_option "DEFAULT" o c)
