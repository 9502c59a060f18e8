-- ===== src/Cache/Updates.antt =====
-- What `update_entry` and `lookup` leave behind.
use py_qgis_server.Prelude.{
  String, Option, none, some, List, [], ◌∷◌, ◌++◌, map, string_eq, ◌≡◌, ◌⊎◌, inl, inr, refl, arith,
  if◌then◌else◌, take, Result, Result-cases, ok, raise, Bool-cases, ap,
}
use py_qgis_server.Prelude.Actions.{bind_result, pure, when, ◌>>◌}
use mathlib.Core.List.{append-nil}
use py_qgis_server.Cache.{
  UpdateState, unchanged, inserted, updated, Details, Services, Call, Manager, whole_seconds,
  is_change, is_updated, update_state, get_protocol_handler, from_store, get_project_details,
  set_lru, set_static, notify_observers, refreshed, update_entry,
}
use py_qgis_server.Cache.Urls.{Aliases, Config, Error, resolve_alias, Url}
use py_qgis_server.Dict
use py_qgis_server.Dict.{Dict}
use py_qgis_server.Lru
use py_qgis_server.Lru.{Lru, IsValid}
use py_qgis_server.Lru.Recency.{set_item_recency}
use py_qgis_server.Lru.Reads.{peek-set_item}

module _ {P : Type 0} where
  -- The details that `update_entry` starts from.
  abbrev pub known : Option (Details P) → Option (Details P) → Option (Details P)
  known none s = s
  known (some d) s = some d

  -- The state that it returns, from the one that the project details give.
  abbrev pub reported : Option (Details P) → UpdateState → UpdateState
  reported none u = inserted
  reported (some d) u = u

  abbrev pub static_after :
      String
      → Option (Details P)
      → Option (Details P)
      → Details P × UpdateState
      → Dict String (Details P)
      → Dict String (Details P)
  static_after key none (some old) r d = if is_updated r.1 then Dict.put key r.0 d else d
  static_after key none none r d = d
  static_after key (some old) s r d = d

  abbrev pub notices : Manager P → String → Details P → UpdateState → List Call
  notices m key d u =
      if is_change u
      then map
          (λ o. record {
            observer = o;
            key = key;
            modified_time = whole_seconds d.timestamp;
            state = u;
          })
          m.observers
      else []

module _ {P : Type 0} (cnf : Config) (w : Services P) where
  from_store_absent :
      (url : Url) (d : Details P) (u : UpdateState)
      → from_store cnf w url none ≡ ok (d, u)
      → u ≡ inserted
  unfolding from_store update_state
  from_store_absent url d u h = elim (Result-cases (get_protocol_handler cnf w url.scheme)) [
    | inl (x, e) ↦ ground (arith, e, h)
    | inr (store, e) ↦ elim (Result-cases (store.get_project url none)) [
      | inl (x, f) ↦ ground (arith, e, f, h)
      | inr (new, f) ↦ ground (arith, e, f, h)
    ]
  ]

  resolved_absent :
      (r : Result Error Url × Aliases) (d : Details P) (u : UpdateState)
      → (bind_result r (λ url a. (from_store cnf w url none, a))).0 ≡ ok (d, u)
      → u ≡ inserted
  resolved_absent (ok url, a) d u h = from_store_absent url d u h
  resolved_absent (raise x, a) d u h = cc

  details_absent :
      (key : String) (a : Aliases) (d : Details P) (u : UpdateState)
      → (get_project_details cnf w key none a).0 ≡ ok (d, u)
      → u ≡ inserted
  unfolding get_project_details
  details_absent key a d u h = resolved_absent (resolve_alias cnf key a) d u h

  refreshed_raise :
      (key : String) (l s : Option (Details P)) (m : Manager P) (x : Error)
      → (get_project_details cnf w key (known l s) m.aliases).0 ≡ raise x
      → refreshed cnf w key l s m
        ≡ (raise x, record m { aliases = (get_project_details cnf w key (known l s) m.aliases).1 })
  unfolding refreshed
  refreshed_raise key none none m x h = rw h refl
  refreshed_raise key none (some old) m x h = rw h refl
  refreshed_raise key (some old) s m x h = rw h refl

  refreshed_ok :
      (key : String) (l s : Option (Details P)) (m : Manager P) (r : Details P × UpdateState)
      → (get_project_details cnf w key (known l s) m.aliases).0 ≡ ok r
      → refreshed cnf w key l s m ≡ (
        ok (r.0, reported l r.1),
        record m {
          aliases = (get_project_details cnf w key (known l s) m.aliases).1;
          static = static_after key l s r m.static;
        },
      )
  unfolding refreshed set_static is_updated
  refreshed_ok key none none m r h = rw h (
      ap
        (λ u.
          (ok (r.0, u), record m { aliases = (get_project_details cnf w key none m.aliases).1 }))
        (details_absent key m.aliases r.0 r.1 h))
  refreshed_ok key none (some old) m r h = elim (Bool-cases (is_updated r.1)) [
    | inl yes_updated ↦ rw (h, yes_updated) refl
    | inr not_updated ↦ rw (h, not_updated) refl
  ]
  refreshed_ok key (some old) s m r h = rw h refl

module _ {P : Type 0} where
  pub set_lru_ok :
      (m : Manager P) (key : String) (d : Details P) (c : Lru String (Details P))
      → Lru.set_item m.lru key d ≡ ok c
      → set_lru key d m ≡ (ok tt, record m { lru = c })
  unfolding set_lru
  set_lru_ok m key d c h = rw (h, set_lru) refl

  write_back :
      (m : Manager P) (key : String) (d : Details P) (u : UpdateState) (c : Lru String (Details P))
      → Lru.set_item m.lru key d ≡ ok c
      → (set_lru key d >> when (is_change u) (notify_observers key d.timestamp u) >> pure u) m
        ≡ (ok u, record m { lru = c; calls = m.calls ++ notices m key d u })
  unfolding notify_observers is_change
  write_back m key d unchanged c h = rw (set_lru_ok m key d c h, append-nil) refl
  write_back m key d inserted c h = rw (set_lru_ok m key d c h) refl
  write_back m key d updated c h = rw (set_lru_ok m key d c h) refl

-- What an update promises, from the entries `l` of the LRU table and `s` of the static one for the
-- key, and what the project details give: `r` with the aliases `a`.
abbrev pub Written :
    {P : Type 0}
    → String
    → Manager P
    → Option (Details P)
    → Option (Details P)
    → Result Error (Details P × UpdateState)
    → Aliases
    → Result Error UpdateState × Manager P
    → Type 0
Written {P = P} key m l s r a written =
    ((x : Error) × (r ≡ raise x) × (written ≡ (raise x, record m { aliases = a })))
    ⊎ ((d : Details P) × (u : UpdateState) × (c : Lru String (Details P)) × (r ≡ ok (d, u))
        × (written ≡ (
          ok (reported l u),
          record {
            lru = c;
            static = static_after key l s (d, u) m.static;
            aliases = a;
            observers = m.observers;
            calls = m.calls ++ notices m key d (reported l u);
          },
        ))
        × IsValid c
        × (Lru.peek c key ≡ some d)
        × (c.capacity ≡ m.lru.capacity)
        × (Lru.items c ≡ take m.lru.capacity ((key, d) ∷ Dict.remove key (Lru.items m.lru))))

module _ {P : Type 0} (cnf : Config) (w : Services P) where
  -- Against the details of the key in a valid LRU table, or else in the static one, `update_entry`
  -- raises what the project details raise, with no write but to the aliases; or it puts the new
  -- details first in the LRU table, which stays valid, renews the static entry if it started from
  -- that one and it has changed, and calls each observer once unless the state is `UNCHANGED`.
  pub update_entry-Written :
      (key : String) (m : Manager P)
      → IsValid m.lru
      → (l s : Option (Details P)) (r : Result Error (Details P × UpdateState)) (a : Aliases)
      → Lru.peek m.lru key ≡ l
      → Dict.get key m.static ≡ s
      → get_project_details cnf w key (known l s) m.aliases ≡ (r, a)
      → Written key m l s r a (update_entry cnf w key m)
  unfolding update_entry
  update_entry-Written key m h l s (raise x) a pl ps g = inl (
    x,
    refl,
    rw (pl, ps)
        (let q : (get_project_details cnf w key (known l s) m.aliases).0 ≡ raise x =
            ap (λ t. t.0) g in
          rw (refreshed_raise cnf w key l s m x q) (rw g refl)),
  )
  update_entry-Written key m h l s (ok (d, u)) a pl ps g =
      let set = set_item_recency m.lru key d h in
      let q : (get_project_details cnf w key (known l s) m.aliases).0 ≡ ok (d, u) =
        ap (λ t. t.0) g in
      inr (
        d,
        u,
        set.0,
        refl,
        rw (pl, ps, refreshed_ok cnf w key l s m (d, u) q, g)
            (write_back (record m { aliases = a; static = static_after key l s (d, u) m.static })
              key d (reported l u) set.0 set.1),
        set.2,
        peek-set_item m.lru set.0 key d h set.1,
        set.3,
        set.4,
      )
