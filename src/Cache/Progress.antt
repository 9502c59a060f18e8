-- ===== src/Cache/Progress.antt =====
-- `refresh` comes to its end when no project fails.
use py_qgis_server.Prelude.{
  String, Option, List, [], ◌∷◌, map, string_eq, ◌≡◌, refl, inl, inr, Result, ok, raise,
}
use py_qgis_server.Cache.{
  Details, Manager, Services, UpdateState, update_entry, update_static_entry, set_static,
  get_project_details,
}
use py_qgis_server.Cache.Refresh.{update_statics, update_entries, refresh_keys, refresh}
use py_qgis_server.Cache.Updates.{known, update_entry-Written}
use py_qgis_server.Cache.Urls.{Aliases, Config, Error}
use py_qgis_server.Dict
use py_qgis_server.Lru
use py_qgis_server.Lru.{IsValid}

-- No key fails, whatever is cached for it.
abbrev pub Serves : {P : Type 0} → Config → (String → Services P) → Type 0
Serves {P = P} cnf w =
    (key : String) (old : Option (Details P)) (a : Aliases)
    → (r : Details P × UpdateState) × (b : Aliases) × (get_project_details cnf (w key) key old a
        ≡ (ok r, b))

module _ {P : Type 0} (cnf : Config) (w : String → Services P) (serves : Serves cnf w) where
  static_returns :
      (key : String) (m : Manager P)
      → (u : UpdateState) × (m' : Manager P) × (update_static_entry cnf (w key) key m ≡ (ok u, m'))
        × (m'.lru ≡ m.lru)
  unfolding update_static_entry set_static
  static_returns key m =
      let g = serves key (Dict.get key m.static) m.aliases in
      (g.0.1, record m { aliases = g.1; static = Dict.put key g.0.0 m.static }, rw g.2 refl, refl)

  statics_return :
      (keys : List String) (m : Manager P)
      → IsValid m.lru
      → (m' : Manager P) × (update_statics cnf w keys m ≡ (ok tt, m')) × IsValid m'.lru
  unfolding update_statics
  statics_return [] m h = (m, refl, h)
  statics_return (key ∷ rest) m h =
      let one = static_returns key m in
      let more = statics_return rest one.1 (rw one.3 h) in (more.0, rw (one.2, more.1) refl, more.2)

  entry_returns :
      (key : String) (m : Manager P)
      → IsValid m.lru
      → (u : UpdateState) × (m' : Manager P) × (update_entry cnf (w key) key m ≡ (ok u, m'))
        × IsValid m'.lru
  entry_returns key m h =
      let g = serves key (known (Lru.peek m.lru key) (Dict.get key m.static)) m.aliases in
      elim (update_entry-Written cnf (w key) key m h _ _ (ok g.0) g.1 refl refl g.2) [
        | inl (x, raised, _) ↦ absurd (
            let e : ◌≡◌ {A = Result Error (Details P × UpdateState)} (ok g.0) (raise x) = raised in
            cc)
        | inr (_, _, _, _, e, valid, _, _, _) ↦ (_, _, e, valid)
      ]

  entries_return :
      (keys : List String) (m : Manager P)
      → IsValid m.lru
      → (states : List (String × UpdateState)) × (m' : Manager P) × (update_entries cnf w keys m
          ≡ (ok states, m'))
  unfolding update_entries
  entries_return [] m h = ([], m, refl)
  entries_return (key ∷ rest) m h =
      let one = entry_returns key m h in
      let more = entries_return rest one.1 one.3 in
      ((key, one.0) ∷ more.0, more.1, rw (one.2, more.2) refl)

  -- If the project details of no key fail, a refresh of a valid LRU table returns.
  pub refresh_returns :
      (m : Manager P)
      → IsValid m.lru
      → (states : List (String × UpdateState)) × (m' : Manager P) × (refresh cnf w m
          ≡ (ok states, m'))
  unfolding refresh
  refresh_returns m h =
      let fixed = statics_return (map (λ e. e.0) m.static) m h in
      let turned = entries_return (refresh_keys fixed.0) fixed.0 fixed.2 in
      (turned.0, turned.1, rw (fixed.1, turned.2) refl)
