-- ===== src/Plugins.antt =====
-- The server's plugins (src/pyqgisserver/plugins.py): the version test, the search for plugins and
-- their start.
mod Examples
pub mod Versions
use py_qgis_server.Prelude.{
  ℕ, zero, suc, String, Bool, true, false, not, ◌&&◌, Option, none, some, List, [], ◌∷◌, ◌++◌, map,
  string_eq, ltb, leb, if◌then◌else◌, Result, ok, raise, ◌>>=◌,
}
use py_qgis_server.Dict
use py_qgis_server.Dict.{Dict}
use py_qgis_server.Text.{Text, ℤ, pos, negsuc, decimal, int, split}

-- `ValueError`, or any other exception.
pub data Error : Type 0 where
  value_error other_error : Error

-- `int(part)`
unfoldable pub read_int : Text → Result Error ℤ
unfolding int
read_int t = elim (int t) [ none ↦ raise value_error | some n ↦ ok n ]

-- `int(ver[0]) if len(ver) > 0 else 0`
unfoldable pub read_first : List Text → Result Error ℤ
unfolding read_int
read_first [] = ok (pos 0)
read_first (part ∷ parts) = read_int part

-- `ver[1:]`
unfoldable pub rest_of : List Text → List Text
rest_of [] = []
rest_of (part ∷ parts) = parts

-- The three numbers of `to_int`, before they are brought in range.
unfoldable pub read_parts : List Text → Result Error (ℤ × ℤ × ℤ)
unfolding read_int read_first rest_of
read_parts [] = raise value_error
read_parts (first ∷ parts) = read_int first >>= (λ major.
    read_first parts >>= (λ minor. read_first (rest_of parts) >>= (λ rev. ok (major, minor, rev))))

-- `n >= k`
unfoldable pub at_least : ℤ → ℕ → Bool
at_least (pos n) k = leb k n
at_least (negsuc n) k = false

-- `n + 1`
unfoldable pub next : ℤ → ℤ
next (pos n) = pos (suc n)
next (negsuc zero) = pos 0
next (negsuc (suc n)) = negsuc n

-- `m <= n`
unfoldable pub at_most : ℤ → ℤ → Bool
at_most (pos m) (pos n) = leb m n
at_most (pos m) (negsuc n) = false
at_most (negsuc m) (pos n) = true
at_most (negsuc m) (negsuc n) = leb n m

-- `f"{n:d}"`: 45 is `-`
unfoldable pub format : ℤ → Text
unfolding decimal
format (pos n) = decimal n
format (negsuc n) = 45 ∷ decimal (suc n)

-- `f"{n:02d}"`: 48 is `0`
unfoldable pub format_two : ℤ → Text
unfolding decimal format
format_two (pos n) = if ltb n 10 then 48 ∷ decimal n else decimal n
format_two (negsuc n) = format (negsuc n)

unfoldable pub in_range : ℤ × ℤ × ℤ → ℤ × ℤ × ℤ
unfolding at_least next
in_range (major, minor, rev) =
    let whole = at_least minor 99 in
    let capped = if whole then pos 0 else rev in
    (
      if whole then next major else major,
      if whole then pos 0 else minor,
      if at_least capped 100 then pos 99 else capped,
    )

-- `int(f"{major:d}{minor:02d}{rev:02d}")`
unfoldable pub number_of : ℤ × ℤ × ℤ → Result Error ℤ
unfolding read_int format format_two
number_of (major, minor, rev) = read_int (format major ++ (format_two minor ++ format_two rev))

-- `to_int`: 46 is `.`
unfoldable pub to_int : Text → Result Error ℤ
unfolding split read_parts in_range number_of
to_int ver = read_parts (split 46 ver) >>= λ p. number_of (in_range p)

abbrev first_of : List Text → Text
first_of [] = []
first_of (part ∷ parts) = part

-- `QGIS_VERSION.split('-')[0]`: 45 is `-`
unfoldable pub release : Text → Text
unfolding split
release version = first_of (split 45 version)

-- `to_int(ver) if ver else version`
unfoldable pub bound : Option Text → ℤ → Result Error ℤ
unfolding to_int
bound none version = ok version
bound (some []) version = ok version
bound (some (c ∷ s)) version = to_int (c ∷ s)

-- `checkQgisVersion`, for the version of QGIS
unfoldable pub check_qgis_version : Text → Option Text → Option Text → Result Error Bool
unfolding release to_int bound at_most
check_qgis_version qgis minver maxver = to_int (release qgis) >>= (λ version.
    bound minver version
    >>= (λ lo. bound maxver version >>= (λ hi. ok (at_most lo version && at_most version hi))))

-- The values that are read from `metadata.txt`; `server` is `none` where it is not given.
pub record Settings : Type 0 where
  pub server : Option Bool
  pub minimum_version : Option Text
  pub maximum_version : Option Text

-- What a path in the plugins' folder is; reading the metadata may raise.
pub record Entry : Type 0 where
  pub name : String
  pub is_dir : Bool
  pub has_metadata : Bool
  pub has_entry_point : Bool
  pub settings : Result Error Settings

-- One round of `find_plugins`: whether the entry is yielded.
unfoldable pub examine_settings : Text → Result Error Settings → Result Error Bool
unfolding check_qgis_version
examine_settings qgis (raise x) = ok false
examine_settings qgis (ok c) = elim c.server [
  | none ↦ ok false
  | some server ↦
      if server then check_qgis_version qgis c.minimum_version c.maximum_version else ok false
]

unfoldable pub examine : Text → Entry → Result Error Bool
unfolding examine_settings
examine qgis e =
    if e.is_dir && (e.has_metadata && e.has_entry_point)
    then examine_settings qgis e.settings
    else ok false

-- `find_plugins`: the names that it yields, and the exception that ends it, if any
unfoldable pub find_plugins : Text → List Entry → List String × Option Error
unfolding examine
find_plugins qgis [] = ([], none)
find_plugins qgis (e ∷ rest) =
    let found = find_plugins qgis rest in
    elim (examine qgis e) [
      | raise x ↦ ([], some x)
      | ok yields ↦ if yields then (e.name ∷ found.0, found.1) else found
    ]

-- The tables of the module and the import path.
pub record Registry (Plugin : Type 0) : Type 0 where
  pub server_plugins : Dict String Plugin
  pub failed_plugins : Dict String String
  pub search_path : List String

module _ {P : Type 0} where
  -- The `try` of `load_plugins`, for what importing and starting a plugin does.
  unfoldable pub start : (String → Result String P) → String → Registry P → Registry P
  unfolding Dict.put
  start load name r = elim (load name) [
    | ok plugin ↦ record r { server_plugins = Dict.put name plugin r.server_plugins }
    | raise trace ↦ record r { failed_plugins = Dict.put name trace r.failed_plugins }
  ]

  unfoldable pub start_all : (String → Result String P) → List String → Registry P → Registry P
  unfolding start
  start_all load [] r = r
  start_all load (name ∷ names) r = start_all load names (start load name r)

  -- `load_plugins`, for the plugins' folder and what is in it
  unfoldable pub load_plugins :
      Text
      → Option String
      → List Entry
      → (String → Result String P)
      → Registry P
      → Option Error × Registry P
  unfolding find_plugins start_all
  load_plugins qgis none entries load r = (none, r)
  load_plugins qgis (some path) entries load r =
      let found = find_plugins qgis entries in
      (found.1, start_all load found.0 (record r { search_path = r.search_path ++ path ∷ [] }))

  -- `plugin_list`
  unfoldable pub plugin_list : Registry P → List String
  plugin_list r = map (λ e. e.0) r.server_plugins

  -- `plugin_metadata`, for the metadata that a plugin's file has; `none` is the empty dictionary
  unfoldable pub plugin_metadata :
      {S : Type 0} → Registry P → (String → Option S) → String → Option S
  unfolding Dict.get
  plugin_metadata r read plugin = elim (Dict.get plugin r.server_plugins) [
    | none ↦ none
    | some loaded ↦ read plugin
  ]
