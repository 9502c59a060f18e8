-- ===== src/Components/Examples.antt =====
-- A service whose factory counts its calls, an option of the environment, and a file that changes.
use py_qgis_server.Prelude.{ℕ, suc, true, none, some, [], ◌∷◌, ◌≡◌, refl, string_eq, nat_eq, ok}
use py_qgis_server.Prelude.Actions.{Action, ◌>>◌}
use py_qgis_server.Components.{Error, Manager, get_service, register_factory}
use py_qgis_server.Components.Config.{get_impl}
use py_qgis_server.Components.Watch.{update_callback}

abbrev empty : Manager (Unit {0}) ℕ ℕ
empty = record { contract_ids = []; world = 0 }

abbrev run : Unit {0} → Action Error (Manager (Unit {0}) ℕ ℕ) ℕ
run u m = (ok m.world, record m { world = suc m.world })

-- The factory is called once for two services.
get_service_once :
    ((register_factory "a" (some tt) >> (get_service run "a" >> get_service run "a")) empty).1.world
    ≡ 1
unfolding register_factory get_service
get_service_once = refl

-- The value of the environment is kept in the configuration.
get_impl_environment :
    (get_impl ok true (λ v. true) (λ s o. some "v") "s" "o" none (("s", []) ∷ []))
    ≡ (ok "v", ("s", ("o", "v") ∷ []) ∷ [])
unfolding get_impl
get_impl_environment = refl

update_callback_changed :
    update_callback (λ p. ok 2) ("a" ∷ ("b" ∷ [])) ([], ("a", 1) ∷ [])
    ≡ (("a" ∷ []) ∷ [], ("a", 2) ∷ (("b", 2) ∷ []))
unfolding update_callback
update_callback_changed = refl
