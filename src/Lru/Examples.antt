-- ===== src/Lru/Examples.antt =====
-- The cache on small inputs.
use py_qgis_server.Prelude.{
  ℕ, ◌≡◌, ◌⊎◌, refl, none, some, [], ◌∷◌, arith, take, ok, raise, ◌>>=◌, nat_eq,
}
use py_qgis_server.Dict
use py_qgis_server.Lru.{Lru, key_error, init, set_item, get_item, items, peek, IsValid}
use py_qgis_server.Lru.Recency.{set_item_recency, get_item_recency}

-- Three writes at capacity 2, the first key read in between: the second one is evicted.
evicts_least_recent :
    (do
      c ← init {K = ℕ} {V = ℕ} 2
      c ← set_item c 1 10
      c ← set_item c 2 20
      (c, v) ← get_item c 1
      c ← set_item c 3 30
      ok (items c))
    ≡ ok ((3, 30) ∷ (1, 10) ∷ [])
unfolding init set_item get_item items
evicts_least_recent = refl

abbrev two : Lru ℕ ℕ
two = record { table = (1, 10) ∷ (2, 20) ∷ []; capacity = 2 }

two-IsValid : IsValid two
unfolding Dict.get
two-IsValid = record {
  positive = omega arith;
  bounded = omega arith;
  distinct = (refl, (refl, tt));
}

set_item_recency_example :
    (c' : Lru ℕ ℕ) × (set_item two 3 30 ≡ ok c')
    × IsValid c'
    × (c'.capacity ≡ 2)
    × (items c' ≡ take 2 ((3, 30) ∷ Dict.remove 3 (items two)))
set_item_recency_example = set_item_recency two 3 30 two-IsValid

get_item_recency_example :
    ((peek two 1 ≡ none) × (get_item two 1 ≡ raise key_error))
    ⊎ ((v : ℕ) × (c' : Lru ℕ ℕ) × (peek two 1 ≡ some v)
        × (get_item two 1 ≡ ok (c', v))
        × IsValid c'
        × (c'.capacity ≡ 2)
        × (items c' ≡ (1, v) ∷ Dict.remove 1 (items two)))
get_item_recency_example = get_item_recency two 1 two-IsValid
