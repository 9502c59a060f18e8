-- ===== src/Cache/Urls.antt =====
-- How the cache manager reads a key: `resolve_alias` and `_merge_qs` of
-- src/pyqgisserver/qgscache/cachemanager.py. The URL functions of Python's library are parameters.
use Prim.Native.String.{◌++◌ as ◌^◌}
use text.Mathlib.Text.{starts_with}
use py_qgis_server.Prelude.{
  String, Bool, Option, none, some, List, [], ◌∷◌, string_eq, ◌==◌, if◌then◌else◌, Result, ok,
  raise,
}
use py_qgis_server.Prelude.Actions.{Action, ◌>>=◌}
use py_qgis_server.Dict
use py_qgis_server.Dict.{Dict}
use py_qgis_server.Lru

pub data Error : Type 0 where
  path_not_allowed file_not_found strict_checking unreadable_resource runtime_error : Error
  value_error : Error
  lru_error : Lru.Error → Error

-- `urllib.parse.ParseResult`
pub record Url : Type 0 where
  pub scheme : String
  pub netloc : String
  pub path : String
  pub params : String
  pub query : String
  pub fragment : String

-- The options of the manager, and what it uses of `urllib.parse`, `str` and `pathlib`.
pub record Config : Type 0 where
  pub default_scheme : String
  -- a scheme stands in `allow_storage_schemes`, or that is `*`
  pub is_allowed : String → Bool
  -- the option of `projects.schemes` for a scheme
  pub user_scheme : String → Option String
  pub urlparse : String → Url
  pub geturl : Url → String
  pub urljoin : String → String → String
  -- the values of a parameter, the first one apart
  pub parse_qs : String → Dict String (String × List String)
  -- `'{path}' in base`
  pub has_path : String → Bool
  -- `base.format(path=...)`
  pub format : String → String → String
  -- `Path(path).relative_to(Path('/') / base)` does not raise
  pub is_relative_to : String → String → Bool

abbrev pub Aliases : Type 0
Aliases = Dict String String

-- `params_2.update(params_1)`
unfoldable pub update : {V : Type 0} → Dict String V → Dict String V → Dict String V
unfolding Dict.put
update d [] = d
update d ((k, v) ∷ new) = update (Dict.put k v d) new

-- `'&'.join(f'{k}={v[0]}' for k, v in ...)`
unfoldable pub join_qs : Dict String (String × List String) → String
join_qs [] = ""
join_qs ((k, v) ∷ []) = k ^ ("=" ^ v.0)
join_qs ((k, v) ∷ (x ∷ d)) = k ^ ("=" ^ (v.0 ^ ("&" ^ join_qs (x ∷ d))))

-- A text that Python takes for true.
unfoldable pub given : Option String → Option String
given none = none
given (some s) = if s == "" then none else some s

module _ (cnf : Config) where
  unfoldable pub merge_qs : String → String → String
  unfolding update join_qs
  merge_qs query1 query2 = join_qs (update (cnf.parse_qs query2) (cnf.parse_qs query1))

  -- The base URL of a scheme; one from the configuration is kept among the aliases.
  unfoldable pub base_url : String → Action Error Aliases (Option String)
  unfolding given Dict.get Dict.put
  base_url scheme a = elim (given (Dict.get scheme a)) [
    | some b ↦ (ok (some b), a)
    | none ↦ elim (cnf.user_scheme scheme) [
      | none ↦ (ok none, a)
      | some b ↦ (ok (given (some b)), Dict.put scheme b a)
    ]
  ]

  -- The parsed base, with a slash before its path.
  unfoldable pub rooted : String → Url
  rooted base =
      let b = cnf.urlparse base in
      if starts_with b.path "/" then b else record b { path = "/" ^ b.path }

  unfoldable pub under_base : String → Url → Result Error Url
  unfolding rooted merge_qs
  under_base base url =
      let query = merge_qs (cnf.urlparse base).query url.query in
      let target =
        cnf.urlparse (cnf.urljoin (cnf.geturl (rooted base)) (url.path ^ ("?" ^ query))) in
      if cnf.is_relative_to target.path (rooted base).path
      then ok target
      else raise path_not_allowed

  -- `if baseurl:` to the end
  unfoldable pub apply_base : Option String → Url → Result Error Url
  unfolding under_base
  apply_base none url = ok url
  apply_base (some base) url =
      if cnf.has_path base
      then ok (cnf.urlparse (cnf.format base url.path))
      else under_base base url

  -- `url.scheme or self._default_scheme`
  unfoldable pub scheme_of : Url → String
  scheme_of url = if url.scheme == "" then cnf.default_scheme else url.scheme

  unfoldable pub resolve_alias : String → Action Error Aliases Url
  unfolding base_url apply_base scheme_of
  resolve_alias key =
      let url = cnf.urlparse key in
      base_url (scheme_of url) >>= λ base. (λ a. (apply_base base url, a))
