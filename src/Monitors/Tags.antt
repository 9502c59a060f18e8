-- ===== src/Monitors/Tags.antt =====
-- The tags that a monitor finds in the environment.
use py_qgis_server.Prelude.{
  ℕ, ◌≡◌, refl, sym, ap, ◌∙◌, Bool, true, false, ◌&&◌, Option, none, some, [], ◌∷◌, ◌++◌, inl, inr,
  Bool-cases, ==_iff, ◌==◌, arith, if◌then◌else◌,
}
use py_qgis_server.Dict.{Dict, Distinct, found, get, get_or, put, update}
use py_qgis_server.Dict.Laws.{get-put, get_or-cons}
use py_qgis_server.Http.Services.{is_given}
use py_qgis_server.Monitors.{get_tags, global_tags, tag_prefix, tag_prefix_legacy}
use py_qgis_server.Text.{Text, starts_with}
use py_qgis_server.Text.Parts.{
  append-remove_prefix, partition_rest, partition_rest-prefix, remove_prefix, remove_prefix-append,
  starts_with-append, text_eq,
}

-- A variable gives a tag that is not empty exactly if its name is the prefix and then the tag.
is_tag : ℕ → Text → Text → Bool
is_tag d p name = starts_with name (d ∷ p) && is_given (partition_rest (d ∷ p) name)

module _ (d : ℕ) (p : Text) (name : Text) where
  name_of_tag : is_tag d p name ≡ true → (d ∷ p) ++ partition_rest (d ∷ p) name ≡ name
  unfolding is_tag
  name_of_tag h =
      let starts : starts_with name (d ∷ p) ≡ true = ground arith in
      rw (partition_rest-prefix p d name starts) (append-remove_prefix (d ∷ p) name starts)

  tag_of_name : (t : Text) → name ≡ (d ∷ p) ++ t → partition_rest (d ∷ p) name ≡ t
  tag_of_name t h =
      let starts : starts_with name (d ∷ p) ≡ true = rw h (starts_with-append (d ∷ p) t) in
      partition_rest-prefix p d name starts
      ∙ ap (remove_prefix (d ∷ p)) h
      ∙ remove_prefix-append (d ∷ p) t

  is_tag-name : (c : ℕ) (t : Text) → name ≡ (d ∷ p) ++ c ∷ t → is_tag d p name ≡ true
  unfolding is_tag
  is_tag-name c t h =
      let starts : starts_with name (d ∷ p) ≡ true = rw h (starts_with-append (d ∷ p) (c ∷ t)) in
      rw (starts, tag_of_name (c ∷ t) h) (unfold is_given in refl)

module _ (d : ℕ) (p : Text) (c : ℕ) (t : Text) where
  same_test :
      (name : Text)
      → is_tag d p name ≡ true
      → (partition_rest (d ∷ p) name == (c ∷ t)) ≡ (name == ((d ∷ p) ++ c ∷ t))
  same_test name h = ground (
    arith,
    ==_iff (partition_rest (d ∷ p) name) (c ∷ t),
    ==_iff name ((d ∷ p) ++ c ∷ t),
    name_of_tag d p name h,
    tag_of_name d p name (c ∷ t),
  )

  -- A tag that is not empty is read from the variable that has the prefix and then its name.
  pub get-update-get_tags :
      (tags : Dict Text Text) (environ : Dict Text Text)
      → Distinct environ
      → get (c ∷ t) (update tags (get_tags (d ∷ p) environ))
        ≡ get_or (get (c ∷ t) tags) ((d ∷ p) ++ c ∷ t) environ
  unfolding update get_tags is_tag
  get-update-get_tags tags [] h = unfold get in refl
  get-update-get_tags tags ((name, v) ∷ environ) h = elim (Bool-cases (is_tag d p name)) [
    | inl given ↦ rw given (
        get-update-get_tags (put (partition_rest (d ∷ p) name) v tags) environ h.1
        ∙ ap (λ o. get_or o ((d ∷ p) ++ c ∷ t) environ)
            (get-put (partition_rest (d ∷ p) name) (c ∷ t) v tags
              ∙ ap (λ b. if b then some v else get (c ∷ t) tags) (same_test name given))
        ∙ get_or-cons ((d ∷ p) ++ c ∷ t) name v (get (c ∷ t) tags) environ h.0)
    | inr other_name ↦
        let other : (name == ((d ∷ p) ++ c ∷ t)) ≡ false =
          ground (arith, ==_iff name ((d ∷ p) ++ c ∷ t), is_tag-name d p name c t) in
        rw other_name (
          get-update-get_tags tags environ h.1
          ∙ ap (λ b. get_or (if b then some v else get (c ∷ t) tags) ((d ∷ p) ++ c ∷ t) environ)
              (sym other)
          ∙ get_or-cons ((d ∷ p) ++ c ∷ t) name v (get (c ∷ t) tags) environ h.0)
  ]

found-none : (o : Option Text) → found none o ≡ o
found-none none = refl
found-none (some v) = refl

abbrev tail : Text → Text
tail [] = []
tail (c ∷ s) = s

get_or-empty :
    (j k : Text) (environ d : Dict Text Text) → d ≡ [] → get_or (get j d) k environ ≡ get k environ
unfolding get
get_or-empty j k environ [] h = found-none (get k environ)
get_or-empty j k environ (e ∷ d) h = absurd (cc)

-- The value of a tag, for names that stand once in the environment: that of the variable with the old
-- prefix, or else that of the variable with the new prefix.
pub get-global_tags :
    (environ : Dict Text Text) (c : ℕ) (t : Text)
    → Distinct environ
    → get (c ∷ t) (global_tags environ)
      ≡ get_or (get (tag_prefix ++ c ∷ t) environ) (tag_prefix_legacy ++ c ∷ t) environ
unfolding global_tags
get-global_tags environ c t h =
    let old : get (c ∷ t) (update [] (get_tags tag_prefix environ))
        ≡ get (tag_prefix ++ c ∷ t) environ =
      get-update-get_tags 81 (tail tag_prefix) c t [] environ h
      ∙ get_or-empty (c ∷ t) (tag_prefix ++ c ∷ t) environ [] refl in
    get-update-get_tags 65 (tail tag_prefix_legacy) c t (update [] (get_tags tag_prefix environ))
      environ h
    ∙ ap (λ o. get_or o (tag_prefix_legacy ++ c ∷ t) environ) old
