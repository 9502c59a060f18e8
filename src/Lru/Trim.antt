-- ===== src/Lru/Trim.antt =====
-- Dropping the oldest entries, and moving one to the end: the steps of the cache's methods on its
-- table.
use py_qgis_server.Prelude.{
  ℕ, zero, suc, ◌+◌, ◌-◌, ◌≤◌, ◌<◌, ◌≡◌, refl, none, some, [], ◌∷◌, ◌++◌, reverse, arith, tests,
  inl, inr, Eq, ==_self, Bool-cases, ltb, if◌then◌else◌, length, length-reverse, reverse-cons, take,
  sym, take_of_length-le, take-append_left, ok,
}
use py_qgis_server.Dict
use py_qgis_server.Dict.{Dict}
use py_qgis_server.Dict.Laws.{
  get-remove, remove_absent, put_absent, Distinct-remove, Distinct-put, length-remove-le,
}
use py_qgis_server.Lru.{Lru, trim, make_room, contains}

module _ {ℓ κ} {K : Type ℓ} {V : Type κ} where
  -- Dropping from the old end keeps the most recent entries.
  pub reverse-trim : (n : ℕ) (d : Dict K V) → reverse (trim n d) ≡ take n (reverse d)
  unfolding trim
  reverse-trim zero [] = refl
  reverse-trim (suc n) [] = refl
  reverse-trim n (x ∷ d) = elim (Bool-cases (ltb n (length (x ∷ d)))) [
    | inl over ↦
        rw (over, reverse-trim n d, reverse-cons)
          (sym (take-append_left n (reverse d) (x ∷ []) (omega (tests, length-reverse d))))
    | inr fits ↦
        rw fits
          (sym (take_of_length-le n (reverse (x ∷ d)) (omega (tests, length-reverse (x ∷ d)))))
  ]

  -- Making room for one entry is trimming to one less than the capacity, and never raises.
  make_room-trim : (n : ℕ) (d : Dict K V) → make_room (suc n) d ≡ ok (trim n d)
  unfolding make_room trim
  make_room-trim n [] = ground arith
  make_room-trim n (x ∷ d) = ground (arith, make_room-trim n d)

  pub make_room-trim_pos : (n : ℕ) (d : Dict K V) → 0 < n → make_room n d ≡ ok (trim (n - 1) d)
  make_room-trim_pos zero d h = absurd (omega arith)
  make_room-trim_pos (suc n) d h = let e : suc n - 1 ≡ n = omega arith in rw (e, make_room-trim)

  pub trim_of_length-le : (n : ℕ) (d : Dict K V) → length d ≤ n → trim n d ≡ d
  unfolding trim
  trim_of_length-le n [] h = refl
  trim_of_length-le n (x ∷ d) h = ground arith

  pub length-trim-le : (n : ℕ) (d : Dict K V) → length (trim n d) ≤ n
  unfolding trim
  length-trim-le n [] = omega arith
  length-trim-le n (x ∷ d) = ground (arith, length-trim-le n d)

module _ {ℓ κ} {K : Type ℓ} {V : Type κ} ⦃e : Eq K⦄ where
  pub get-trim_absent :
      (k : K) (n : ℕ) (d : Dict K V) → Dict.get k d ≡ none → Dict.get k (trim n d) ≡ none
  unfolding trim Dict.get
  get-trim_absent k n [] h = refl
  get-trim_absent k n ((j, v) ∷ d) h = ground (arith, get-trim_absent k n d)

  pub Distinct-trim : (n : ℕ) (d : Dict K V) → Dict.Distinct d → Dict.Distinct (trim n d)
  unfolding trim
  Distinct-trim n [] h = h
  Distinct-trim n (x ∷ d) h = ground (arith, Distinct-trim n d)

  -- The two branches of `__setitem__` and `__delitem__` leave the same table.
  pub room-remove :
      (c : Lru K V) (k : K)
      → (if contains c k then Dict.remove k c.table else c.table) ≡ Dict.remove k c.table
  unfolding contains
  room-remove c k = ground (arith, remove_absent k c.table)

  pub remove_self : (k : K) (d : Dict K V) → Dict.get k (Dict.remove k d) ≡ none
  remove_self k d = rw get-remove (rw ==_self)

  pub Distinct-snoc :
      (k : K) (v : V) (d : Dict K V)
      → Dict.get k d ≡ none
      → Dict.Distinct d
      → Dict.Distinct (d ++ (k, v) ∷ [])
  Distinct-snoc k v d a h = rw (← put_absent k v d a) (Distinct-put k v d h)

  pub Distinct-move :
      (k : K) (v : V) (d : Dict K V)
      → Dict.Distinct d
      → Dict.Distinct (Dict.remove k d ++ (k, v) ∷ [])
  Distinct-move k v d h =
      Distinct-snoc k v (Dict.remove k d) (remove_self k d) (Distinct-remove k d h)

  pub length-remove_present :
      (k : K) (v : V) (d : Dict K V)
      → Dict.get k d ≡ some v
      → length (Dict.remove k d) + 1 ≤ length d
  unfolding Dict.get Dict.remove
  length-remove_present k v [] h = cc
  length-remove_present k v ((j, w) ∷ d) h =
      ground (arith, length-remove-le k d, length-remove_present k v d)

  pub get-append_absent :
      (k : K) (v : V) (d : Dict K V) → Dict.get k d ≡ none → Dict.get k (d ++ (k, v) ∷ []) ≡ some v
  unfolding Dict.get
  get-append_absent k v [] h = rw ==_self
  get-append_absent k v ((j, w) ∷ d) h = ground (arith, get-append_absent k v d)
