-- ===== src/Components.antt =====
-- The component manager (src/pyqgisservercontrib/core/componentmanager.py), which creates services and
-- keeps them, and the watch on files (watchfiles.py).
mod Examples
pub mod Config
pub mod Singletons
pub mod Watch
use py_qgis_server.Prelude.{
  String, Bool, true, false, Option, none, some, List, [], ◌∷◌, string_eq, ◌==◌, if◌then◌else◌,
  Result, ok, raise,
}
use py_qgis_server.Prelude.Actions.{Action, bind_result, pure, throw, modify, ◌>>=◌, ◌>>◌}
use py_qgis_server.Dict
use py_qgis_server.Dict.{Dict}

-- `FactoryNotFoundError`, `NoRegisteredFactoryError`, `EntryPointNotFoundError`, `ValueError`, and
-- what a factory raises.
pub data Error : Type 0 where
  factory_not_found no_registered_factory entry_point_not_found : String → Error
  value_error factory_error : Error

-- A factory, or the `nullFactory` of a service that was registered as an object.
pub data Factory (F : Type 0) : Type 0 where
  factory : F → Factory F
  null_factory : String → Factory F

-- `FactoryEntry`
pub record Entry (F A : Type 0) : Type 0 where
  pub create_instance : Factory F
  pub service : Option A

-- The manager, and the rest of the program.
pub record Manager (F W A : Type 0) : Type 0 where
  pub contract_ids : Dict String (Entry F A)
  pub world : W

-- `load_entrypoint`, for the entry points of a category
unfoldable pub load_entrypoint :
    {A : Type 0} → List (String × Result Error A) → String → Result Error A
load_entrypoint [] name = raise (entry_point_not_found name)
load_entrypoint ((n, loaded) ∷ rest) name =
    let later = load_entrypoint rest name in if n == name then loaded else later

module _ {F W A : Type 0} where
  -- `register_factory`; `none` is an object that is not callable
  unfoldable pub register_factory : String → Option F → Action Error (Manager F W A) (Unit {0})
  unfolding Dict.put
  register_factory id none = throw value_error
  register_factory id (some f) = modify (λ m. record m {
    contract_ids =
        Dict.put id (record { create_instance = factory f; service = none }) m.contract_ids;
  })

  -- `register_service`
  unfoldable pub register_service : String → A → Action Error (Manager F W A) (Unit {0})
  unfolding Dict.put
  register_service id service = modify (λ m. record m {
    contract_ids =
        Dict.put id (record { create_instance = null_factory id; service = some service })
          m.contract_ids;
  })

  -- `self._contractIDs[contractID] = fe` for the new service
  unfoldable pub keep_service : String → Entry F A → A → Action Error (Manager F W A) A
  unfolding Dict.put
  keep_service id fe a =
      modify (λ m. record m {
        contract_ids = Dict.put id (record fe { service = some a }) m.contract_ids;
      })
      >> pure a

  -- `register_entrypoints`: each one registers itself, until one raises
  unfoldable pub register_entrypoints :
      List (Action Error (Manager F W A) (Unit {0})) → Action Error (Manager F W A) (Unit {0})
  register_entrypoints [] = pure tt
  register_entrypoints (ep ∷ eps) = ep >> register_entrypoints eps

  -- What a call of a factory does, which may use the manager itself.
  module _ (run : F → Action Error (Manager F W A) A) where
    unfoldable pub call_factory : Factory F → Action Error (Manager F W A) A
    call_factory (factory f) = run f
    call_factory (null_factory id) = throw (no_registered_factory id)

    -- `create_instance`
    unfoldable pub create_instance : String → Action Error (Manager F W A) A
    unfolding Dict.get call_factory
    create_instance id m = elim (Dict.get id m.contract_ids) [
      | none ↦ (raise (factory_not_found id), m)
      | some fe ↦ call_factory fe.create_instance m
    ]

    -- `get_service`
    unfoldable pub get_service : String → Action Error (Manager F W A) A
    unfolding Dict.get call_factory keep_service
    get_service id m = elim (Dict.get id m.contract_ids) [
      | none ↦ (raise (factory_not_found id), m)
      | some fe ↦ elim fe.service [
        | some a ↦ (ok a, m)
        | none ↦ (call_factory fe.create_instance >>= keep_service id fe) m
      ]
    ]
