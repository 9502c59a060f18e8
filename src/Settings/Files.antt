-- ===== src/Settings/Files.antt =====
-- What the options are after a configuration file has been read.
use py_qgis_server.Prelude.{
  String, ◌≡◌, refl, sym, ap, ◌∙◌, true, Option, none, some, [], ◌∷◌, inl, inr, Bool-cases, All,
  string_eq, ◌==◌, ==_iff, if◌then◌else◌,
}
use py_qgis_server.Components.Config.{Config, find_option}
use py_qgis_server.Dict.{Dict, Distinct, found, get, put, update}
use py_qgis_server.Dict.Laws.{get-update}
use py_qgis_server.Settings.{read_file}
use py_qgis_server.Settings.Lookup.{
  find_option-empty, find_option-get, find_option-put, has_section, has_section-put, look,
}

-- No section stands twice, and no option twice in a section.
abbrev pub IsProper : Config → Type 0
IsProper file = Distinct file × All (λ e. Distinct e.1) file

abbrev options_of : Option (Dict String String) → Dict String String
options_of o = elim o [ none ↦ [] | some old ↦ old ]

get-options_of : (o : String) (r : Option (Dict String String)) → get o (options_of r) ≡ look o r
unfolding get
get-options_of o none = refl
get-options_of o (some options) = refl

look-cons :
    (s o name : String) (options : Dict String String) (file : Config)
    → look o (get s ((name, options) ∷ file))
      ≡ (if name == s then get o options else look o (get s file))
unfolding get
look-cons s o name options file = elim (Bool-cases (name == s)) [
  | inl e ↦
      ap (λ b. look o (if b then some options else get s file)) e
      ∙ ap (λ b. if b then get o options else look o (get s file)) (sym e)
  | inr e ↦
      ap (λ b. look o (if b then some options else get s file)) e
      ∙ ap (λ b. if b then get o options else look o (get s file)) (sym e)
]

-- The options of the file, and for others those that there were.
pub find_option-read_file :
    (s o : String) (file c : Config)
    → IsProper file
    → find_option s o (read_file c file) ≡ found (find_option s o c) (find_option s o file)
unfolding read_file
find_option-read_file s o [] c h = ap (found (find_option s o c)) (sym (find_option-empty s o))
find_option-read_file s o ((name, options) ∷ file) c ((new, h), (d, ds)) =
    let c1 : Config = put name (update (options_of (get name c)) options) c in
    let ih : find_option s o (read_file c1 file)
        ≡ found (find_option s o c1) (find_option s o file) =
      find_option-read_file s o file c1 (h, ds) in
    ih ∙ elim (Bool-cases (name == s)) [
      | inl e ↦
          let same : name ≡ s = (==_iff name s).0 e in
          let here : find_option s o c1 ≡ found (find_option s o c) (get o options) =
            find_option-put s o name (update (options_of (get name c)) options) c
            ∙ rw e (get-update o (options_of (get name c)) options d)
            ∙ ap (λ x. found x (get o options))
                (get-options_of o (get name c)
                  ∙ ap (λ n. look o (get n c)) same
                  ∙ sym (find_option-get s o c)) in
          let rest : find_option s o file ≡ none =
            find_option-get s o file ∙ ap (λ n. look o (get n file)) (sym same) ∙ ap (look o) new in
          rw
            (
              rest,
              here,
              find_option-get s o ((name, options) ∷ file),
              look-cons s o name options file,
              e,
            )
            refl
      | inr e ↦
          let here : find_option s o c1 ≡ find_option s o c =
            find_option-put s o name (update (options_of (get name c)) options) c ∙ rw e refl in
          rw
            (here, find_option-get s o ((name, options) ∷ file), look-cons s o name options file, e)
            (ap (found (find_option s o c)) (find_option-get s o file))
    ]

pub has_section-read_file :
    (n : String) (file c : Config)
    → has_section n c ≡ true
    → has_section n (read_file c file) ≡ true
unfolding read_file
has_section-read_file n [] c h = h
has_section-read_file n ((name, options) ∷ file) c h =
    has_section-read_file n file (put name (update (options_of (get name c)) options) c) (
      has_section-put n name (update (options_of (get name c)) options) c
      ∙ elim (Bool-cases (name == n)) [ inl e ↦ rw e refl | inr e ↦ rw e h ])
