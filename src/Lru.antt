-- ===== src/Lru.antt =====
-- `lrucache` (src/pyqgisserver/utils/lru.py). The ordered table is a dictionary with the least
-- recent entry first; a method returns the new cache, or raises.
pub mod Reads
pub mod Recency
pub mod Renewal
pub mod Trim
mod Examples
use py_qgis_server.Prelude.{
  ℕ, ◌<◌, ◌≤◌, true, false, Bool, Option, none, some, List, [], ◌∷◌, ◌++◌, map, reverse, Eq, ◌==◌,
  ltb, leb, if◌then◌else◌, length, Result, ok, raise, ◌>>=◌,
}
use py_qgis_server.Dict
use py_qgis_server.Dict.{Dict}

pub data Error : Type 0 where
  assertion_error key_error : Error

pub record Lru {ℓ κ} (K : Type ℓ) (V : Type κ) : Type (ℓ ⊔ κ) where
  pub table : Dict K V
  pub capacity : ℕ

module _ {ℓ κ} {K : Type ℓ} {V : Type κ} where
  -- `while len(d) > size: d.popitem(last=False)`
  unfoldable pub trim : ℕ → Dict K V → Dict K V
  trim n [] = []
  trim n (x ∷ d) = let rest = trim n d in if ltb n (length (x ∷ d)) then rest else x ∷ d

  -- `while len(d) >= capacity: d.popitem(last=False)`; `popitem` raises on an empty table
  unfoldable pub make_room : ℕ → Dict K V → Result Error (Dict K V)
  make_room n [] = if leb n 0 then raise key_error else ok []
  make_room n (x ∷ d) =
      let rest = make_room n d in if leb n (length (x ∷ d)) then rest else ok (x ∷ d)

  -- `size(n)`
  unfoldable pub set_size : ℕ → Lru K V → Result Error (Lru K V)
  unfolding trim
  set_size n c =
      if leb n 0
      then raise assertion_error
      else ok
          (record { table = if ltb n c.capacity then trim n c.table else c.table; capacity = n })

  -- `size()`
  unfoldable pub size : Lru K V → ℕ
  size c = c.capacity

  unfoldable pub init : ℕ → Result Error (Lru K V)
  unfolding set_size
  init n = set_size n (record { table = []; capacity = n })

  unfoldable pub len : Lru K V → ℕ
  len c = length c.table

  unfoldable pub clear : Lru K V → Lru K V
  clear c = record c { table = [] }

  -- most recent first
  unfoldable pub items : Lru K V → List (K × V)
  items c = reverse c.table

  unfoldable pub keys : Lru K V → List K
  keys c = reverse (map (λ e. e.0) c.table)

  unfoldable pub values : Lru K V → List V
  values c = reverse (map (λ e. e.1) c.table)

module _ {ℓ κ} {K : Type ℓ} {V : Type κ} ⦃e : Eq K⦄ where
  unfoldable pub contains : Lru K V → K → Bool
  unfolding Dict.get
  contains c k = elim (Dict.get k c.table) [ none ↦ false | some v ↦ true ]

  unfoldable pub peek : Lru K V → K → Option V
  peek c k = Dict.get k c.table

  -- `table.move_to_end(key)`
  unfoldable pub move_to_end : K → Dict K V → Result Error (Dict K V)
  unfolding Dict.get Dict.remove
  move_to_end k d = elim (Dict.get k d) [
    | none ↦ raise key_error
    | some v ↦ ok (Dict.remove k d ++ (k, v) ∷ [])
  ]

  -- `table[key]`
  unfoldable pub subscript : K → Dict K V → Result Error V
  unfolding Dict.get
  subscript k d = elim (Dict.get k d) [ none ↦ raise key_error | some v ↦ ok v ]

  -- `cache[key]`
  unfoldable pub get_item : Lru K V → K → Result Error (Lru K V × V)
  unfolding move_to_end subscript
  get_item c k = do d ← move_to_end k c.table; v ← subscript k d; ok (record c { table = d }, v)

  -- `cache[key] = value`
  unfoldable pub set_item : Lru K V → K → V → Result Error (Lru K V)
  unfolding make_room contains Dict.put Dict.remove
  set_item c k v = do
    d ← make_room c.capacity (if contains c k then Dict.remove k c.table else c.table)
    ok (record c { table = Dict.put k v d })

  -- `del cache[key]`
  unfoldable pub del_item : Lru K V → K → Result Error (Lru K V)
  unfolding contains Dict.remove
  del_item c k =
      if contains c k then ok (record c { table = Dict.remove k c.table }) else raise key_error

-- Between two calls: room for one entry, no more entries than the capacity, no key twice.
pub record IsValid {ℓ κ} {K : Type ℓ} {V : Type κ} ⦃e : Eq K⦄ (c : Lru K V) : Type (ℓ ⊔ κ) where
  pub positive : 0 < c.capacity
  pub bounded : length c.table ≤ c.capacity
  pub distinct : Dict.Distinct c.table
