-- ===== src/Dict/Laws.antt =====
-- What the dictionary operations leave to be read, and that they keep the keys distinct.
use py_qgis_server.Prelude.{
  ◌≤◌, ◌≡◌, ◌∙◌, ap, sym, refl, Option, some, none, [], ◌∷◌, ◌++◌, reverse, arith, Eq, ◌==◌, ==_iff,
  ==_self, if◌then◌else◌, length, reverse-cons, Bool-cases, inl, inr,
}
use mathlib.Core.List.{append-nil}
use mathlib.Core.Path.{subst}
use py_qgis_server.Dict.{Dict, Distinct, found, get, get_or, put, remove, update}

module _ {ℓ κ} {K : Type ℓ} {V : Type κ} ⦃e : Eq K⦄ where
  pub get-put :
      (k j : K) (v : V) (d : Dict K V) → get j (put k v d) ≡ (if k == j then some v else get j d)
  unfolding get put
  get-put k j v [] = refl
  get-put k j v ((i, w) ∷ d) = ground (arith, ==_iff k j, ==_iff i k, ==_iff i j, get-put k j v d)

  pub get-remove :
      (k j : K) (d : Dict K V) → get j (remove k d) ≡ (if k == j then none else get j d)
  unfolding get remove
  get-remove k j [] = ground arith
  get-remove k j ((i, w) ∷ d) = ground (arith, ==_iff k j, ==_iff i k, ==_iff i j, get-remove k j d)

  pub remove_absent : (k : K) (d : Dict K V) → get k d ≡ none → remove k d ≡ d
  unfolding get remove
  remove_absent k [] h = refl
  remove_absent k ((i, w) ∷ d) h = ground (arith, remove_absent k d)

  pub put_absent : (k : K) (v : V) (d : Dict K V) → get k d ≡ none → put k v d ≡ d ++ (k, v) ∷ []
  unfolding get put
  put_absent k v [] h = refl
  put_absent k v ((i, w) ∷ d) h = ground (arith, put_absent k v d)

  pub remove-put : (k : K) (v : V) (d : Dict K V) → remove k (put k v d) ≡ remove k d
  unfolding put remove
  remove-put k v [] = ground (arith, ==_self k)
  remove-put k v ((i, w) ∷ d) = ground (arith, ==_iff k i, ==_iff i k, remove-put k v d)

  pub remove-append : (k : K) (c d : Dict K V) → remove k (c ++ d) ≡ remove k c ++ remove k d
  unfolding remove
  remove-append k [] d = refl
  remove-append k ((i, w) ∷ c) d = ground (arith, remove-append k c d)

  pub remove-reverse : (k : K) (d : Dict K V) → reverse (remove k d) ≡ remove k (reverse d)
  unfolding remove
  remove-reverse k [] = refl
  remove-reverse k ((i, w) ∷ d) =
      rw (reverse-cons, remove-append)
        (elim (Bool-cases (i == k)) [
          | inl same ↦ rw (same, append-nil) (remove-reverse k d)
          | inr other ↦ rw (other, reverse-cons, remove-reverse k d)
        ])

  pub length-remove-le : (k : K) (d : Dict K V) → length (remove k d) ≤ length d
  unfolding remove
  length-remove-le k [] = omega arith
  length-remove-le k ((i, w) ∷ d) = ground (arith, length-remove-le k d)

  pub Distinct-remove : (k : K) (d : Dict K V) → Distinct d → Distinct (remove k d)
  unfolding remove
  Distinct-remove k [] h = h
  Distinct-remove k ((i, w) ∷ d) h = ground (arith, get-remove k i d, Distinct-remove k d)

  pub Distinct-put : (k : K) (v : V) (d : Dict K V) → Distinct d → Distinct (put k v d)
  unfolding put get
  Distinct-put k v [] h = (refl, tt)
  Distinct-put k v ((i, w) ∷ d) h =
      ground (arith, get-put k i v d, ==_iff k i, ==_iff i k, Distinct-put k v d h.1)

  pub get_or-cons :
      (j k : K) (v : V) (o : Option V) (c : Dict K V)
      → get k c ≡ none
      → get_or (if k == j then some v else o) j c ≡ get_or o j ((k, v) ∷ c)
  unfolding get
  get_or-cons j k v o c h = elim (Bool-cases (k == j)) [
    | inl same ↦
        let gone : get j c ≡ none = subst (λ i. get i c ≡ none) ((==_iff k j).0 same) h in
        ap (λ b. get_or (if b then some v else o) j c) same
        ∙ ap (found (some v)) gone
        ∙ ap (λ b. found o (if b then some v else get j c)) (sym same)
    | inr other ↦
        ap (λ b. get_or (if b then some v else o) j c) other
        ∙ ap (λ b. found o (if b then some v else get j c)) (sym other)
  ]

  pub get-update : (j : K) (d c : Dict K V) → Distinct c → get j (update d c) ≡ get_or (get j d) j c
  unfolding update
  get-update j d [] h = unfold get in refl
  get-update j d ((k, v) ∷ c) h =
      get-update j (put k v d) c h.1
      ∙ ap (λ o. get_or o j c) (get-put k j v d)
      ∙ get_or-cons j k v (get j d) c h.0
