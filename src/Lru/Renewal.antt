-- ===== src/Lru/Renewal.antt =====
-- Writing the least recent entry again: it comes last in the table.
use mathlib.Core.List.{reverse-reverse}
use mathlib.Core.Path.{subst}
use py_qgis_server.Prelude.{
  none, ◌≡◌, ◌∙◌, ◌≤◌, ◌++◌, [], ◌∷◌, refl, sym, ap, arith, reverse, Eq, ==_self, length,
  length-reverse, reverse-cons, take, take_of_length-le,
}
use py_qgis_server.Dict
use py_qgis_server.Dict.{Dict}
use py_qgis_server.Dict.Laws.{remove-reverse, remove_absent}
use py_qgis_server.Lru.{Lru, items, IsValid}

module _ {ℓ κ} {K : Type ℓ} {V : Type κ} ⦃e : Eq K⦄ where
  remove_first :
      (k : K) (v : V) (rest : Dict K V)
      → Dict.get k rest ≡ none
      → Dict.remove k ((k, v) ∷ rest) ≡ rest
  unfolding Dict.remove
  remove_first k v rest h = rw ==_self (remove_absent k rest h)

  pub table_renewed :
      (c c' : Lru K V) (k : K) (v d : V) (rest : Dict K V)
      → IsValid c
      → c.table ≡ (k, v) ∷ rest
      → items c' ≡ take c.capacity ((k, d) ∷ Dict.remove k (items c))
      → c'.table ≡ rest ++ (k, d) ∷ []
  unfolding items
  table_renewed c c' k v d rest h t i =
      let distinct : Dict.Distinct ((k, v) ∷ rest) = subst (λ d. Dict.Distinct d) t h.distinct in
      let others : Dict.remove k (reverse c.table) ≡ reverse rest =
        rw (← remove-reverse, t, remove_first k v rest distinct.0) refl in
      let small : length ((k, d) ∷ reverse rest) ≤ c.capacity =
        omega (arith, h.bounded, ap length t, length-reverse rest) in
      let j : reverse c'.table ≡ (k, d) ∷ reverse rest =
        i ∙ rw others (take_of_length-le c.capacity ((k, d) ∷ reverse rest) small) in
      sym (reverse-reverse c'.table) ∙ rw (j, reverse-cons, reverse-reverse) refl
