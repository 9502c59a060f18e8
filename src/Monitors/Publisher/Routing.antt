-- ===== src/Monitors/Publisher/Routing.antt =====
-- Under which key a monitor publishes, and with what.
use mathlib.Core.Path.{subst}
use py_qgis_server.Prelude.{
  ◌≡◌, ◌≢◌, refl, ap, ◌∙◌, true, false, Option, none, some, List, [], ◌∷◌, ◌++◌, inl, inr,
  Bool-cases, Result-cases, ◌⊎◌, nat_eq, ◌==◌, if◌then◌else◌, Result, ok, raise,
}
use py_qgis_server.Dict.{Dict, Distinct, get, get_or, put}
use py_qgis_server.Dict.Laws.{get-put, get-update}
use py_qgis_server.Http.Services.{is_given}
use py_qgis_server.Monitors.{
  Error, global_tags, key_error, other_error, routing_key_name, unbound_local, value_error,
}
use py_qgis_server.Monitors.Publisher.{
  Connection, Monitor, Publication, data_of, emit, fall_back, init, route, routed, values_of,
}
use py_qgis_server.Text.{Text, starts_with}
use py_qgis_server.Text.Parts.{append-remove_prefix, remove_prefix, text_eq}

-- The key that a configured one and a default one give.
pub data Routes (format : Text → Result Error Text)
    : Text → Option Text → Result Error Text → Type 0 where
  fixed :
      {key : Text} {d : Option Text}
      → starts_with key (64 ∷ []) ≡ false
      → Routes format key d (ok key)
  formatted :
      {key found : Text} {d : Option Text}
      → format key ≡ ok found
      → Routes format (64 ∷ key) d (ok found)
  fallback :
      {key given : Text}
      → format key ≡ raise key_error
      → is_given given ≡ true
      → Routes format (64 ∷ key) (some given) (ok given)
  unset :
      {key : Text}
      → format key ≡ raise key_error
      → Routes format (64 ∷ key) none (raise unbound_local)
  empty :
      {key : Text}
      → format key ≡ raise key_error
      → Routes format (64 ∷ key) (some []) (raise unbound_local)
  refused :
      {key : Text} {d : Option Text} {x : Error}
      → format key ≡ raise x
      → x ≢ key_error
      → Routes format (64 ∷ key) d (raise x)

module _ {V : Type 0} (of_text : Text → V) where
  -- The data of a message: the parameters, the key and the tags, the first of these that has the name.
  abbrev pub HasData : Dict Text Text → Dict Text V → Text → Dict Text V → Type 0
  HasData tags params key d =
      (name : Text)
      → get name d
        ≡ get_or
            (if routing_key_name == name
              then some (of_text key)
              else get name (values_of of_text tags))
            name params

  -- One more message under the key, with the JSON of its data; or an exception, of the key or of the
  -- JSON, and none.
  abbrev pub Emitted :
      (Dict Text V → Result Error Text)
      → Dict Text Text
      → Dict Text V
      → List Publication
      → Result Error Text
      → Result Error (Unit {0}) × List Publication
      → Type 0
  Emitted dumps tags params published (raise x) r = r ≡ (raise x, published)
  Emitted dumps tags params published (ok key) r =
      (d : Dict Text V) × HasData tags params key d
      × (((log_msg : Text) × (dumps d ≡ ok log_msg)
            × (r ≡ (ok tt, published ++ record { log_msg = log_msg; key = key } ∷ [])))
          ⊎ ((x : Error) × (dumps d ≡ raise x) × (r ≡ (raise x, published))))

  data_of-HasData :
      (m : Monitor) (params : Dict Text V) (key : Text)
      → Distinct params
      → HasData m.tags params key (data_of of_text m params key)
  unfolding data_of
  data_of-HasData m params key h name =
      get-update name (put routing_key_name (of_text key) (values_of of_text m.tags)) params h
      ∙ ap (λ o. get_or o name params)
          (get-put routing_key_name name (of_text key) (values_of of_text m.tags))

  emit-Emitted :
      (format : Text → Result Error Text) (dumps : Dict Text V → Result Error Text) (m : Monitor)
      (params : Dict Text V) (published : List Publication) (r : Result Error Text)
      → Distinct params
      → route of_text format m ≡ r
      → Emitted dumps m.tags params published r (emit of_text format dumps m params published)
  unfolding emit
  emit-Emitted format dumps m params published (raise x) h e = rw (emit, e) refl
  emit-Emitted format dumps m params published (ok key) h e =
      let d = data_of of_text m params key in
      (
        d,
        data_of-HasData m params key h,
        elim (Result-cases (dumps d)) [
          | inl (x, f) ↦ inr (x, f, rw (emit, e, f) refl)
          | inr (log_msg, f) ↦ inl (log_msg, f, rw (emit, e, f) refl)
        ],
      )

  routed-Routes :
      (format : Text → Result Error Text) (key : Text) (d : Option Text) (r : Result Error Text)
      → format key ≡ r
      → Routes format (64 ∷ key) d (routed r d)
  unfolding routed fall_back
  routed-Routes format key d (ok found) h = formatted h
  routed-Routes format key none (raise key_error) h = unset h
  routed-Routes format key (some []) (raise key_error) h = empty h
  routed-Routes format key (some (c ∷ t)) (raise key_error) h = fallback h (unfold is_given in refl)
  routed-Routes format key d (raise value_error) h = refused h (λ e. cc)
  routed-Routes format key d (raise unbound_local) h = refused h (λ e. cc)
  routed-Routes format key d (raise other_error) h = refused h (λ e. cc)

  module _ (format : Text → Result Error Text) (environ : Dict Text Text) (c : Connection)
      (d : Option Text) where
    route-dynamic :
        (key : Text)
        → Routes format (64 ∷ key) d (route of_text format (init environ c (64 ∷ key) d))
    unfolding route init starts_with remove_prefix
    route-dynamic key = routed-Routes format key d (format key) refl

    route-fixed :
        (key : Text)
        → starts_with key (64 ∷ []) ≡ false
        → route of_text format (init environ c key d) ≡ ok key
    unfolding route init
    route-fixed key h = rw (init, h) refl

    route-Routes : (key : Text) → Routes format key d (route of_text format (init environ c key d))
    route-Routes key = elim (Bool-cases (starts_with key (64 ∷ []))) [
      | inl h ↦
          subst (λ k. Routes format k d (route of_text format (init environ c k d)))
            (append-remove_prefix (64 ∷ []) key h) (route-dynamic (remove_prefix (64 ∷ []) key))
      | inr h ↦ rw (route-fixed key h) (fixed h)
    ]

    tags-init : (key : Text) → (init environ c key d).tags ≡ global_tags environ
    unfolding init
    tags-init key = elim (Bool-cases (starts_with key (64 ∷ []))) [
      | inl h ↦ rw (init, h) refl
      | inr h ↦ rw (init, h) refl
    ]

    -- A new monitor publishes a report once, as the JSON of its data, under the configured key, or, if
    -- that begins with `@`, under what `format` makes of the rest, or else under the default key; the
    -- data have the tags of the environment, which the key and the parameters of the report override.
    -- If the data cannot be put in JSON, or `format` raises `KeyError` and no default key is given, or
    -- it raises another exception, nothing is published and `emit` raises: in the second case
    -- `UnboundLocalError`.
    pub emit-init :
        (dumps : Dict Text V → Result Error Text) (key : Text) (params : Dict Text V)
        (published : List Publication)
        → Distinct params
        → (r : Result Error Text) × Routes format key d r
          × Emitted dumps
              (global_tags environ)
              params
              published
              r
              (emit of_text format dumps (init environ c key d) params published)
    emit-init dumps key params published h = (
      route of_text format (init environ c key d),
      route-Routes key,
      subst
          (λ t.
            Emitted dumps t params published (route of_text format (init environ c key d))
              (emit of_text format dumps (init environ c key d) params published))
          (tags-init key)
          (emit-Emitted format dumps (init environ c key d) params published
            (route of_text format (init environ c key d)) h refl),
    )
