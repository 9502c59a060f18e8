-- ===== src/QgisRequest/Report.antt =====
-- What a worker reports of its cache (`get_report` of src/pyqgisserver/qgsworker.py).
use py_qgis_server.Prelude.{ℕ, String, Bool, true, false, List, [], ◌∷◌, map, string_eq, ◌≡◌, refl}
use py_qgis_server.Cache.{Details, Manager}
use py_qgis_server.Cache.Samples.{manager}
use py_qgis_server.Dict
use py_qgis_server.Dict.{Dict}
use py_qgis_server.Lru

-- What is read of a project.
pub record Reader (P : Type 0) : Type 0 where
  pub file_name : P → String
  pub last_modified : P → String
  pub count : P → ℕ

pub record Item : Type 0 where
  pub key : String
  pub filename : String
  pub last_modified : String
  pub num_layers : ℕ
  pub static : Bool

module _ {P : Type 0} where
  -- `items.update(...)` with the entries of a cache
  unfoldable pub mark :
      Bool
      → List (String × Details P)
      → Dict String (Details P × Bool)
      → Dict String (Details P × Bool)
  unfolding Dict.put
  mark static [] items = items
  mark static ((k, d) ∷ rest) items = mark static rest (Dict.put k (d, static) items)

  -- `_to_json`
  unfoldable pub to_json : Reader P → String × (Details P × Bool) → Item
  to_json reader (key, (d, static)) = record {
    key = key;
    filename = reader.file_name d.project;
    last_modified = reader.last_modified d.project;
    num_layers = reader.count d.project;
    static = static;
  }

  -- the `cache` of the report: an entry of both caches is a static one
  unfoldable pub get_report : Reader P → Manager P → List Item
  unfolding mark to_json Lru.items
  get_report reader m = map (to_json reader) (mark true m.static (mark false (Lru.items m.lru) []))

abbrev reader : Reader String
reader = record { file_name = λ p. p; last_modified = λ p. ""; count = λ p. 3 }

get_report_keys :
    map {B = String × Bool} (λ i. (i.key, i.static)) (get_report reader manager)
    ≡ ("a", false) ∷ (("s", true) ∷ [])
unfolding get_report
get_report_keys = refl
