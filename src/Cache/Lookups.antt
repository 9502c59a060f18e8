-- ===== src/Cache/Lookups.antt =====
-- What `lookup` returns against what it leaves in the cache.
use py_qgis_server.Prelude.{
  String, Bool, true, false, some, string_eq, ◌≡◌, ◌⊎◌, inl, inr, refl, ok, raise, Option-cases,
  Result,
}
use py_qgis_server.Cache.{
  UpdateState, Details, Services, Manager, get_project_details, get_lru, update_entry,
  lookup_updated, lookup, updated, unchanged,
}
use py_qgis_server.Cache.Updates.{known, set_lru_ok, update_entry-Written}
use py_qgis_server.Cache.Urls.{Aliases, Config, Error}
use py_qgis_server.Dict
use py_qgis_server.Lru
use py_qgis_server.Lru.{Lru, IsValid}
use py_qgis_server.Lru.Recency.{set_item_recency, get_item_recency}
use py_qgis_server.Lru.Reads.{peek-set_item, peek-get_item}

module _ {P : Type 0} where
  -- Reading an entry that is there.
  read_present :
      (key : String) (d : Details P) (m : Manager P)
      → IsValid m.lru
      → Lru.peek m.lru key ≡ some d
      → (c : Lru String (Details P)) × (get_lru key m ≡ (ok d, record m { lru = c }))
        × IsValid c
        × (Lru.peek c key ≡ some d)
  unfolding get_lru
  read_present key d m h p = elim (get_item_recency m.lru key h) [
    | inl (missing, _) ↦ cc
    | inr (v, c, found, got, valid, _, _) ↦
        let same : v ≡ d = cc in
        (c, rw (got, get_lru) (rw same refl), valid, peek-get_item m.lru c key d v p got)
  ]

-- What a lookup promises: it raises and only the aliases may have changed, or it returns the
-- project of the entry that the LRU table then has for the key.
abbrev pub Found :
    {P : Type 0} → String → Manager P → Result Error (P × UpdateState) × Manager P → Type 0
Found {P = P} key m r =
    ((x : Error) × (a : Aliases) × (r ≡ (raise x, record m { aliases = a })))
    ⊎ ((d : Details P) × (u : UpdateState) × (m' : Manager P) × (r ≡ (ok (d.project, u), m'))
        × (Lru.peek m'.lru key ≡ some d)
        × IsValid m'.lru)

module _ {P : Type 0} (cnf : Config) (w : Services P) where
  read_updated :
      (key : String) (m m' : Manager P) (d : Details P) (u : UpdateState)
      → update_entry cnf w key m ≡ (ok u, m')
      → IsValid m'.lru
      → Lru.peek m'.lru key ≡ some d
      → Found key m (lookup_updated cnf w key m)
  unfolding lookup_updated
  read_updated key m m' d u e valid found =
      let read = read_present key d m' valid found in
      inr (d, u, record m' { lru = read.0 }, rw (e, read.1) refl, read.3, read.2)

  lookup_updated-Found :
      (key : String) (m : Manager P) → IsValid m.lru → Found key m (lookup_updated cnf w key m)
  unfolding lookup_updated
  lookup_updated-Found key m h = elim (update_entry-Written cnf w key m h _ _ _ _ refl refl refl) [
    | inl (x, _, e) ↦ inl (
      x,
      (get_project_details cnf w key (known (Lru.peek m.lru key) (Dict.get key m.static))
          m.aliases).1,
      rw e refl,
    )
    | inr (d, u, c, _, e, valid, found, _, _) ↦ read_updated key m _ d _ e valid found
  ]

  -- In a valid cache every lookup, with or without refresh, either raises and leaves both caches
  -- and the observers alone, or returns the project that the LRU table then has for the key; the
  -- table stays valid.
  pub lookup-Found :
      (key : String) (refresh : Bool) (m : Manager P)
      → IsValid m.lru
      → Found key m (lookup cnf w key refresh m)
  unfolding lookup
  lookup-Found key true m h = lookup_updated-Found key m h
  lookup-Found key false m h = elim (Option-cases (Lru.peek m.lru key)) [
    | inr (d, found) ↦ inr (d, unchanged, m, rw (found, lookup) refl, found, h)
    | inl missing ↦ elim (Option-cases (Dict.get key m.static)) [
      | inr (d, fixed) ↦
          let set = set_item_recency m.lru key d h in
          inr (
            d,
            updated,
            record m { lru = set.0 },
            rw (missing, lookup, fixed, set_lru_ok m key d set.0 set.1) refl,
            peek-set_item m.lru set.0 key d h set.1,
            set.2,
          )
      | inl absent ↦
          let e : lookup cnf w key false m ≡ lookup_updated cnf w key m =
            rw (missing, lookup, absent)
              (unfold lookup_updated update_entry in (rw (missing, absent) refl)) in
          rw e (lookup_updated-Found key m h)
    ]
  ]
