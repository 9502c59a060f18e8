-- ===== src/Cache/Examples.antt =====
-- The cache manager on a small configuration: the scheme `file` has the base `/projects/`.
use py_qgis_server.Prelude.{
  String, true, false, Option, none, some, [], ◌∷◌, reverse, string_eq, ◌≡◌, refl, ok, raise,
}
use py_qgis_server.Cache.{
  Details, inserted, updated, unchanged, get_project_details, from_store, update_state,
  update_entry, lookup,
}
use py_qgis_server.Cache.Lookups.{Found, lookup-Found}
use py_qgis_server.Cache.Order.{refresh_order}
use py_qgis_server.Cache.Progress.{Serves}
use py_qgis_server.Cache.Refresh.{refresh}
use py_qgis_server.Cache.Paths.{base_url_returns, Obtained, get_project_details-Obtained}
use py_qgis_server.Cache.Updates.{Written, update_entry-Written}
use py_qgis_server.Cache.Urls.{Config, Url, path_not_allowed, resolve_alias, apply_base, scheme_of}
use py_qgis_server.Dict
use py_qgis_server.Lru
use py_qgis_server.Lru.{IsValid}
use py_qgis_server.Cache.Samples.{parsed, config, services, demo, manager, manager-IsValid}

resolve_alias_inside :
    resolve_alias config "demo" manager.aliases ≡ (ok (parsed "/projects/demo?"), manager.aliases)
unfolding resolve_alias
resolve_alias_inside = refl

resolve_alias_outside :
    resolve_alias config "/etc/demo" manager.aliases ≡ (raise path_not_allowed, manager.aliases)
unfolding resolve_alias
resolve_alias_outside = refl

lookup_known : (lookup config services "a" false manager).0 ≡ ok ("old", unchanged)
unfolding lookup
lookup_known = refl

lookup_refreshed : (lookup config services "a" true manager).0 ≡ ok ("/projects/a?", updated)
unfolding lookup
lookup_refreshed = refl

lookup_static : (lookup config services "s" true manager).0 ≡ ok ("/projects/s?", inserted)
unfolding lookup
lookup_static = refl

lookup-Found_example : Found "s" manager (lookup config services "s" true manager)
lookup-Found_example = lookup-Found config services "s" true manager manager-IsValid

get_project_details-Obtained_example :
    Obtained config services "demo" none manager.aliases manager.aliases
      (record { project = "/projects/demo?"; timestamp = 1700000000 })
      inserted
get_project_details-Obtained_example =
    get_project_details-Obtained config services "demo" none manager.aliases manager.aliases
      (record { project = "/projects/demo?"; timestamp = 1700000000 }) inserted
      (unfold get_project_details in refl)

update_entry-Written_example :
    Written "a" manager
      (some demo)
      none
      (ok (record { project = "/projects/a?"; timestamp = 1700000000 }, updated))
      manager.aliases
      (update_entry config services "a" manager)
update_entry-Written_example =
    update_entry-Written config services "a" manager manager-IsValid (some demo) none
      (ok (record { project = "/projects/a?"; timestamp = 1700000000 }, updated)) manager.aliases
      (unfold Lru.peek Dict.get in refl) (unfold Dict.get in refl)
      (unfold get_project_details in refl)

refresh_states : (refresh config (λ _. services) manager).0 ≡ ok (("a", updated) ∷ [])
unfolding refresh
refresh_states = refl

refresh_order_example :
    (Lru.keys (refresh config (λ _. services) manager).1.lru ≡ Lru.keys manager.lru)
    × ("a" ∷ [] ≡ reverse (Lru.keys manager.lru))
    × IsValid (refresh config (λ _. services) manager).1.lru
refresh_order_example =
    refresh_order config (λ _. services) manager (refresh config (λ _. services) manager).1
      (("a", updated) ∷ []) manager-IsValid (unfold refresh in refl)

-- A configuration whose base URLs are templates, and that allows every scheme.
abbrev templates : Config
templates = record config { is_allowed = λ s. true; has_path = λ s. true }

templates_apply :
    (base : Option String) (url : Url)
    → (target : Url) × (apply_base templates base url ≡ ok target)
unfolding apply_base
templates_apply none url = (url, refl)
templates_apply (some base) url = (_, refl)

templates-Serves : Serves {P = String} templates (λ _. services)
unfolding get_project_details resolve_alias from_store
templates-Serves key old a =
    let base = base_url_returns templates (scheme_of templates (parsed key)) a in
    let target = templates_apply base.0 (parsed key) in
    let new : Details String = record { project = target.0.path; timestamp = 1700000000 } in
    ((new, update_state old new), base.1, rw (base.2, target.1) refl)
