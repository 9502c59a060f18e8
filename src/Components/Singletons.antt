-- ===== src/Components/Singletons.antt =====
-- A service is created once.
use py_qgis_server.Prelude.{String, some, ◌≡◌, refl, ◌∙◌, string_eq, ==_self, ok}
use py_qgis_server.Prelude.Actions.{Action}
use py_qgis_server.Dict
use py_qgis_server.Dict.Laws.{get-put}
use py_qgis_server.Components.{Entry, Error, Manager, get_service, keep_service}

module _ {F W A : Type 0} (run : F → Action Error (Manager F W A) A) where
  -- What is kept is what is returned, and is found again without the factory.
  pub get_service-keep_service :
      (id : String) (fe : Entry F A) (a : A) (m : Manager F W A)
      → get_service run id (keep_service id fe a m).1 ≡ (ok a, (keep_service id fe a m).1)
  unfolding get_service keep_service
  get_service-keep_service id fe a m =
      let e : Dict.get id (Dict.put id (record fe { service = some a }) m.contract_ids)
          ≡ some (record fe { service = some a }) =
        get-put id id (record fe { service = some a }) m.contract_ids ∙ rw (==_self id) refl in
      rw (e, get_service) refl
