-- ===== src/Lru/Reads.antt =====
-- What `peek` finds after a write to the cache, and after a read of it.
use py_qgis_server.Prelude.{◌≡◌, some, Result, ◌∙◌, sym, Eq, ◌-◌, ok}
use py_qgis_server.Dict
use py_qgis_server.Lru.{Lru, Error, peek, set_item, get_item, IsValid}
use py_qgis_server.Lru.Recency.{after_set, after_get, set_item-after_set, get_item-after_get}
use py_qgis_server.Lru.Trim.{get-append_absent, remove_self, get-trim_absent}

module _ {ℓ κ} {K : Type ℓ} {V : Type κ} ⦃e : Eq K⦄ where
  peek-after_set : (c : Lru K V) (k : K) (v : V) → peek (after_set c k v) k ≡ some v
  unfolding peek
  peek-after_set c k v =
      get-append_absent k v _
        (get-trim_absent k (c.capacity - 1) (Dict.remove k c.table) (remove_self k c.table))

  pub peek-set_item :
      (c c' : Lru K V) (k : K) (v : V) → IsValid c → set_item c k v ≡ ok c' → peek c' k ≡ some v
  peek-set_item c c' k v h s =
      let e : ok (after_set c k v) ≡ ok c' = sym (set_item-after_set c k v h.positive) ∙ s in
      let p : peek (after_set c k v) k ≡ some v = peek-after_set c k v in cc

  pub peek-get_item :
      (c c' : Lru K V) (k : K) (v w : V)
      → peek c k ≡ some v
      → get_item c k ≡ ok (c', w)
      → peek c' k ≡ some v
  unfolding peek
  peek-get_item c c' k v w p g =
      let e : ◌≡◌ {A = Result Error (Lru K V × V)} (ok (after_get c k v, v)) (ok (c', w)) =
        sym (get_item-after_get c k v p) ∙ g in
      let q : peek (after_get c k v) k ≡ some v =
        get-append_absent k v (Dict.remove k c.table) (remove_self k c.table) in
      cc
