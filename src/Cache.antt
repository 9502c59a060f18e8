-- ===== src/Cache.antt =====
-- `QgsCacheManager` (src/pyqgisserver/qgscache/cachemanager.py): static projects in a dictionary,
-- the others in the LRU table. A method is an action on the manager that may raise.
use py_qgis_server.Prelude.{
  ℕ, ◌*◌, ◌/◌, String, Bool, true, false, Option, none, some, List, [], ◌∷◌, ◌++◌, map, reverse,
  string_eq, nat_eq, ◌==◌, if◌then◌else◌, Result, ok, raise,
}
use py_qgis_server.Prelude.Actions.{
  Action, pure, throw, catch, catch_result, modify, gets, bind_result, ◌>>=◌, ◌>>◌, when,
}
use py_qgis_server.Cache.Urls.{Aliases, Config, Error, Url, path_not_allowed, resolve_alias}
use py_qgis_server.Dict
use py_qgis_server.Dict.{Dict}
use py_qgis_server.Lru
use py_qgis_server.Lru.{Lru}
mod Examples
pub mod Handlers
pub mod Lookups
pub mod Order
pub mod Paths
pub mod Postgres
pub mod Progress
mod ReadExamples
pub mod Refresh
pub mod Samples
pub mod Secure
pub mod Times
pub mod Updates
pub mod Urls

pub data UpdateState : Type 0 where
  unchanged inserted updated : UpdateState

pub record Details (Project : Type 0) : Type 0 where
  pub project : Project
  pub timestamp : ℕ

-- What the manager uses of a protocol handler.
pub record Handler (Project : Type 0) : Type 0 where
  pub get_project : Url → Option (Details Project) → Result Error (Details Project)
  pub get_modified_time : Url → Result Error ℕ

-- The handlers of the schemes, at the time of a call, with `QgisStorageHandler` for the others.
pub record Services (Project : Type 0) : Type 0 where
  pub protocol_handler : String → Option (Handler Project)
  pub storage_handler : Handler Project

-- An observer that was called.
pub record Call : Type 0 where
  pub observer : String
  pub key : String
  pub modified_time : ℕ
  pub state : UpdateState

pub record Manager (Project : Type 0) : Type 0 where
  pub lru : Lru String (Details Project)
  pub static : Dict String (Details Project)
  pub aliases : Aliases
  pub observers : List String
  pub calls : List Call

-- `modified_time.replace(microsecond=0)`
unfoldable pub whole_seconds : ℕ → ℕ
whole_seconds t = t / 1000000 * 1000000

-- `bool(update)`
unfoldable pub is_change : UpdateState → Bool
is_change unchanged = false
is_change inserted = true
is_change updated = true

unfoldable pub is_updated : UpdateState → Bool
is_updated unchanged = false
is_updated inserted = false
is_updated updated = true

-- `get_protocol_handler`
unfoldable pub get_protocol_handler :
    {P : Type 0} → Config → Services P → String → Result Error (Handler P)
get_protocol_handler cnf w scheme =
    let s = if scheme == "" then cnf.default_scheme else scheme in
    if cnf.is_allowed s
    then elim (w.protocol_handler s) [ none ↦ ok w.storage_handler | some h ↦ ok h ]
    else raise path_not_allowed

-- The state that `_get_project_details` reports: against the cached details, if there are any.
unfoldable pub update_state : {P : Type 0} → Option (Details P) → Details P → UpdateState
update_state none new = inserted
update_state (some old) new = if new.timestamp == old.timestamp then unchanged else updated

module _ {P : Type 0} where
  abbrev pub on_aliases : {A : Type 0} → Action Error Aliases A → Action Error (Manager P) A
  on_aliases f m = ((f m.aliases).0, record m { aliases = (f m.aliases).1 })

  -- `self._lru_cache[key] = details`
  unfoldable pub set_lru : String → Details P → Action Error (Manager P) Unit
  unfolding Lru.set_item
  set_lru key d m = elim (Lru.set_item m.lru key d) [
    | ok c ↦ (ok tt, record m { lru = c })
    | raise x ↦ (raise (Error.lru_error x), m)
  ]

  -- `self._lru_cache[key]`
  unfoldable pub get_lru : String → Action Error (Manager P) (Details P)
  unfolding Lru.get_item
  get_lru key m = elim (Lru.get_item m.lru key) [
    | ok (c, d) ↦ (ok d, record m { lru = c })
    | raise x ↦ (raise (Error.lru_error x), m)
  ]

  unfoldable pub set_static : String → Details P → Action Error (Manager P) Unit
  unfolding Dict.put
  set_static key d = modify (λ m. record m { static = Dict.put key d m.static })

  -- `notify_observers`: an exception of an observer is caught
  unfoldable pub notify_observers : String → ℕ → UpdateState → Action Error (Manager P) Unit
  unfolding whole_seconds
  notify_observers key t state = modify (λ m. record m {
    calls =
        m.calls
        ++ map
            (λ o. record {
              observer = o;
              key = key;
              modified_time = whole_seconds t;
              state = state;
            })
            m.observers;
  })

  -- `peek(key)`
  unfoldable pub peek : Manager P → String → Option (Details P)
  unfolding Lru.peek Dict.get
  peek m key = elim (Lru.peek m.lru key) [ none ↦ Dict.get key m.static | some d ↦ some d ]

module _ {P : Type 0} (cnf : Config) (w : Services P) where
  -- `_get_project_details` writes nothing but the aliases.
  unfoldable pub from_store : Url → Option (Details P) → Result Error (Details P × UpdateState)
  unfolding get_protocol_handler update_state
  from_store url old = elim (get_protocol_handler cnf w url.scheme) [
    | raise x ↦ raise x
    | ok store ↦ elim (store.get_project url old) [
      | raise x ↦ raise x
      | ok new ↦ ok (new, update_state old new)
    ]
  ]

  unfoldable pub get_project_details :
      String → Option (Details P) → Action Error Aliases (Details P × UpdateState)
  unfolding resolve_alias from_store
  get_project_details key old = resolve_alias cnf key >>= λ url. (λ a. (from_store url old, a))

  -- `update_static_entry`
  unfoldable pub update_static_entry : String → Action Error (Manager P) UpdateState
  unfolding get_project_details set_static Dict.get
  update_static_entry key =
      gets (λ m. Dict.get key m.static)
      >>= (λ old. on_aliases (get_project_details key old))
      >>= (λ r. set_static key r.0 >> pure r.1)

  -- The first half of `update_entry`, up to the write to the LRU table.
  unfoldable pub refreshed :
      String
      → Option (Details P)
      → Option (Details P)
      → Action Error (Manager P) (Details P × UpdateState)
  unfolding get_project_details set_static is_updated
  refreshed key none (some old) = on_aliases (get_project_details key (some old)) >>= λ r.
      when (is_updated r.1) (set_static key r.0) >> pure (r.0, inserted)
  refreshed key none none = on_aliases (get_project_details key none)
  refreshed key (some old) s = on_aliases (get_project_details key (some old))

  -- `update_entry`
  unfoldable pub update_entry : String → Action Error (Manager P) UpdateState
  unfolding Lru.peek Dict.get refreshed set_lru notify_observers is_change
  update_entry key = (λ m. refreshed key (Lru.peek m.lru key) (Dict.get key m.static) m) >>= (λ r.
      set_lru key r.0 >> when (is_change r.1) (notify_observers key r.0.timestamp r.1) >> pure r.1)

  -- the part of `lookup` that looks at the actual entry
  unfoldable pub lookup_updated : String → Action Error (Manager P) (P × UpdateState)
  unfolding update_entry get_lru
  lookup_updated key = update_entry key >>= λ u. get_lru key >>= λ d. pure (d.project, u)

  -- `lookup`
  unfoldable pub lookup : String → Bool → Action Error (Manager P) (P × UpdateState)
  unfolding lookup_updated Lru.peek Dict.get set_lru
  lookup key true m = lookup_updated key m
  lookup key false m = elim (Lru.peek m.lru key) [
    | some d ↦ (ok (d.project, unchanged), m)
    | none ↦ elim (Dict.get key m.static) [
      | some d ↦ (set_lru key d >> pure (d.project, updated)) m
      | none ↦ lookup_updated key m
    ]
  ]
