-- ===== src/Lru/Recency.antt =====
-- The cache as its list of entries, most recent first: what each method does to that list.
use py_qgis_server.Prelude.{
  ℕ, zero, suc, ◌-◌, ◌<◌, ◌≡◌, ◌⊎◌, refl, ap, none, some, [], ◌∷◌, ◌++◌, reverse, arith, tests, inl,
  inr, Eq, Bool-cases, Option-cases, ltb, length-append, take, take-cons, sym, ok, raise,
}
use mathlib.Core.List.{reverse-append}
use py_qgis_server.Dict
use py_qgis_server.Dict.{Dict}
use py_qgis_server.Dict.Laws.{put_absent, remove-reverse, Distinct-remove, length-remove-le}
use py_qgis_server.Lru.{
  Lru, key_error, assertion_error, trim, set_size, init, items, contains, peek, move_to_end,
  subscript, get_item, set_item, del_item, IsValid,
}
use py_qgis_server.Lru.Trim.{
  Distinct-move, Distinct-snoc, Distinct-trim, get-append_absent, get-trim_absent,
  length-remove_present, length-trim-le, make_room-trim_pos, remove_self, reverse-trim, room-remove,
  trim_of_length-le,
}

module _ {ℓ κ} {K : Type ℓ} {V : Type κ} ⦃e : Eq K⦄ where
  abbrev pub after_set : Lru K V → K → V → Lru K V
  after_set c k v = record c {
    table = trim (c.capacity - 1) (Dict.remove k c.table) ++ (k, v) ∷ [];
  }

  pub set_item-after_set :
      (c : Lru K V) (k : K) (v : V) → 0 < c.capacity → set_item c k v ≡ ok (after_set c k v)
  unfolding set_item
  set_item-after_set c k v h =
      rw (room-remove c k, make_room-trim_pos c.capacity (Dict.remove k c.table) h)
        (ap (λ d. ok (record c { table = d }))
          (put_absent k v (trim (c.capacity - 1) (Dict.remove k c.table))
            (get-trim_absent k (c.capacity - 1) (Dict.remove k c.table) (remove_self k c.table))))

  after_set-IsValid : (c : Lru K V) (k : K) (v : V) → IsValid c → IsValid (after_set c k v)
  after_set-IsValid c k v h = record {
    positive = h.positive;
    bounded = omega (
      arith,
      h.positive,
      length-append (trim (c.capacity - 1) (Dict.remove k c.table)) ((k, v) ∷ []),
      length-trim-le (c.capacity - 1) (Dict.remove k c.table),
    );
    distinct =
        Distinct-snoc k v (trim (c.capacity - 1) (Dict.remove k c.table))
          (get-trim_absent k (c.capacity - 1) (Dict.remove k c.table) (remove_self k c.table))
          (Distinct-trim (c.capacity - 1) (Dict.remove k c.table)
            (Distinct-remove k c.table h.distinct));
  }

  items-after_set :
      (c : Lru K V) (k : K) (v : V)
      → 0 < c.capacity
      → items (after_set c k v) ≡ take c.capacity ((k, v) ∷ Dict.remove k (items c))
  unfolding items
  items-after_set c k v h =
      rw (reverse-append, reverse-trim, remove-reverse)
        (sym (take-cons c.capacity (k, v) (Dict.remove k (reverse c.table)) h))

  -- In a valid cache `cache[k] = v` does not raise, keeps the cache valid and its capacity, and the
  -- entries are then the new one and the old ones of other keys, in their order, cut at the capacity.
  pub set_item_recency :
      (c : Lru K V) (k : K) (v : V)
      → IsValid c
      → (c' : Lru K V) × (set_item c k v ≡ ok c')
        × IsValid c'
        × (c'.capacity ≡ c.capacity)
        × (items c' ≡ take c.capacity ((k, v) ∷ Dict.remove k (items c)))
  set_item_recency c k v h = (
    after_set c k v,
    set_item-after_set c k v h.positive,
    after_set-IsValid c k v h,
    refl,
    items-after_set c k v h.positive,
  )

  abbrev pub after_get : Lru K V → K → V → Lru K V
  after_get c k v = record c { table = Dict.remove k c.table ++ (k, v) ∷ [] }

  pub get_item-after_get :
      (c : Lru K V) (k : K) (v : V) → peek c k ≡ some v → get_item c k ≡ ok (after_get c k v, v)
  unfolding get_item peek
  get_item-after_get c k v h =
      rw (h, move_to_end)
        (rw (get-append_absent k v (Dict.remove k c.table) (remove_self k c.table), subscript) refl)

  after_get-IsValid :
      (c : Lru K V) (k : K) (v : V) → peek c k ≡ some v → IsValid c → IsValid (after_get c k v)
  unfolding peek
  after_get-IsValid c k v p h = record {
    positive = h.positive;
    bounded = omega (
      arith,
      h.bounded,
      length-append (Dict.remove k c.table) ((k, v) ∷ []),
      length-remove_present k v c.table p,
    );
    distinct = Distinct-move k v c.table h.distinct;
  }

  -- `cache[k]` raises `KeyError` exactly when `peek` finds nothing. Otherwise it returns what `peek`
  -- finds, keeps the cache valid, and moves that entry to the front, the others in their order.
  pub get_item_recency :
      (c : Lru K V) (k : K)
      → IsValid c
      → ((peek c k ≡ none) × (get_item c k ≡ raise key_error))
        ⊎ ((v : V) × (c' : Lru K V) × (peek c k ≡ some v)
            × (get_item c k ≡ ok (c', v))
            × IsValid c'
            × (c'.capacity ≡ c.capacity)
            × (items c' ≡ (k, v) ∷ Dict.remove k (items c)))
  unfolding items
  get_item_recency c k h = elim (Option-cases (peek c k)) [
    | inl missing ↦ inl (missing, unfold get_item peek in (rw (missing, move_to_end)))
    | inr (v, found) ↦ inr (
      v,
      after_get c k v,
      found,
      get_item-after_get c k v found,
      after_get-IsValid c k v found h,
      refl,
      rw (reverse-append, remove-reverse),
    )
  ]

  abbrev after_size : Lru K V → ℕ → Lru K V
  after_size c n = record { table = trim n c.table; capacity = n }

  set_size-after_size :
      (c : Lru K V) (n : ℕ) → IsValid c → 0 < n → set_size n c ≡ ok (after_size c n)
  unfolding set_size
  set_size-after_size c n h p = elim (Bool-cases (ltb n c.capacity)) [
    | inl smaller ↦ rw smaller (ground arith)
    | inr larger ↦
        let fits : trim n c.table ≡ c.table =
          trim_of_length-le n c.table (omega (tests, h.bounded)) in
        rw (larger, fits) (ground arith)
  ]

  after_size-IsValid : (c : Lru K V) (n : ℕ) → IsValid c → 0 < n → IsValid (after_size c n)
  after_size-IsValid c n h p = record {
    positive = p;
    bounded = length-trim-le n c.table;
    distinct = Distinct-trim n c.table h.distinct;
  }

  -- In a valid cache `size(n)` asserts that `n` is positive; then it keeps the cache valid, sets the
  -- capacity, and keeps the `n` most recent entries in their order, however `n` compares to the
  -- old capacity.
  pub set_size_recency :
      (c : Lru K V) (n : ℕ)
      → IsValid c
      → ((n ≡ 0) × (set_size n c ≡ raise assertion_error))
        ⊎ ((c' : Lru K V) × (set_size n c ≡ ok c')
            × IsValid c'
            × (c'.capacity ≡ n)
            × (items c' ≡ take n (items c)))
  unfolding items
  set_size_recency c zero h = inl (refl, unfold set_size in refl)
  set_size_recency c (suc n) h = inr (
    after_size c (suc n),
    set_size-after_size c (suc n) h (omega arith),
    after_size-IsValid c (suc n) h (omega arith),
    refl,
    reverse-trim (suc n) c.table,
  )

  -- The constructor asserts a positive size; then the cache is valid, empty and of that capacity.
  pub init-IsValid :
      (n : ℕ)
      → ((n ≡ 0) × (init {K = K} {V = V} n ≡ raise assertion_error))
        ⊎ ((c : Lru K V) × (init n ≡ ok c) × IsValid c × (c.capacity ≡ n) × (items c ≡ []))
  unfolding init items
  init-IsValid zero = inl (refl, refl)
  init-IsValid (suc n) = inr (
    record { table = []; capacity = suc n },
    ground arith,
    record { positive = omega arith; bounded = omega arith; distinct = tt },
    refl,
    refl,
  )

  -- `del cache[key]` raises `KeyError` exactly when the key is not there; else only that entry goes.
  pub del_item_recency :
      (c : Lru K V) (k : K)
      → IsValid c
      → ((peek c k ≡ none) × (del_item c k ≡ raise key_error))
        ⊎ ((v : V) × (c' : Lru K V) × (peek c k ≡ some v)
            × (del_item c k ≡ ok c')
            × IsValid c'
            × (c'.capacity ≡ c.capacity)
            × (items c' ≡ Dict.remove k (items c)))
  unfolding peek
  del_item_recency c k h = elim (Option-cases (Dict.get k c.table)) [
    | inl missing ↦ inl (missing, unfold del_item in rw (missing, contains))
    | inr (v, found) ↦ inr (
      v,
      record c { table = Dict.remove k c.table },
      found,
      unfold del_item in rw (found, contains),
      record {
        positive = h.positive;
        bounded = omega (arith, h.bounded, length-remove-le k c.table);
        distinct = Distinct-remove k c.table h.distinct;
      },
      refl,
      unfold items in remove-reverse k c.table,
    )
  ]
