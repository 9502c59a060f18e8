-- ===== src/Cache/Secure.antt =====
-- What a request's URL can choose of a database connection in secure mode.
use py_qgis_server.Prelude.{
  String, true, [], ◌∷◌, string_eq, ◌==◌, contains, ◌≡◌, inl, inr, Bool-cases, ==_iff, All, arith,
}
use py_qgis_server.Cache.Postgres.{only_allowed, options_of}
use py_qgis_server.Dict
use py_qgis_server.Dict.{Dict}

abbrev pub IsService : String × String → Type 0
IsService e = e.0 ≡ "service"

options_cons :
    (k v : String) (d : Dict String String)
    → contains k ("service" ∷ ("project" ∷ ("dbname" ∷ ("schema" ∷ [])))) ≡ true
    → All IsService (options_of d)
    → All IsService (options_of ((k, v) ∷ d))
unfolding options_of Dict.remove
options_cons k v d h i = elim (Bool-cases (k == "project")) [
  | inl e ↦ rw e i
  | inr e ↦ elim (Bool-cases (k == "schema")) [
    | inl f ↦ rw (e, f) i
    | inr f ↦ elim (Bool-cases (k == "dbname")) [
      | inl g ↦ rw (e, f, g) i
      | inr g ↦
          let same : k ≡ "service" = ground (
            arith,
            ==_iff "service" k,
            ==_iff "project" k,
            ==_iff "dbname" k,
            ==_iff "schema" k,
            ==_iff k "project",
            ==_iff k "schema",
            ==_iff k "dbname",
          ) in
          rw (e, f, g) (same, i)
    ]
  ]
]

-- In secure mode no option but the service gets from the URL to the connection.
pub options_of-only_allowed : (d : Dict String String) → All IsService (options_of (only_allowed d))
unfolding only_allowed options_of Dict.remove
options_of-only_allowed [] = tt
options_of-only_allowed ((k, v) ∷ d) =
    elim (Bool-cases (contains k ("service" ∷ ("project" ∷ ("dbname" ∷ ("schema" ∷ [])))))) [
      | inl h ↦ simp h (options_cons k v (only_allowed d) h (options_of-only_allowed d))
      | inr h ↦ simp h (options_of-only_allowed d)
    ]
