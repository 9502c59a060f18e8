-- ===== src/Cache/Paths.antt =====
-- What the cache manager lets a protocol handler read: `resolve_alias` and `get_protocol_handler`.
use py_qgis_server.Prelude.{
  String, true, false, Bool-cases, Option, none, some, string_eq, ◌≡◌, ◌⊎◌, inl, inr, refl, arith,
  Result, Result-cases, Option-cases, ok, raise, ap, sym, ◌∙◌,
}
use py_qgis_server.Cache.{
  Details, Handler, Services, UpdateState, get_protocol_handler, from_store, get_project_details,
  update_state,
}
use py_qgis_server.Dict
use py_qgis_server.Prelude.Actions.{bind_result}
use py_qgis_server.Cache.Urls.{
  given, Aliases, Config, Error, Url, base_url, rooted, under_base, apply_base, scheme_of,
  resolve_alias,
}

module _ (cnf : Config) where
  -- The URL that a key may stand for, given the base URL of its scheme: that of the base's template
  -- with the path of the key, or one under the base.
  abbrev pub Inside : Option String → Url → Url → Type 0
  Inside none url target = target ≡ url
  Inside (some base) url target =
      ((cnf.has_path base ≡ true) × (target ≡ cnf.urlparse (cnf.format base url.path)))
      ⊎ ((cnf.has_path base ≡ false)
          × (cnf.is_relative_to target.path (rooted cnf base).path ≡ true))

  apply_base-Inside :
      (base : Option String) (url target : Url)
      → apply_base cnf base url ≡ ok target
      → Inside base url target
  unfolding apply_base under_base
  apply_base-Inside none url target h = ground arith
  apply_base-Inside (some base) url target h = elim (Bool-cases (cnf.has_path base)) [
    | inl template ↦ inl (template, ground arith)
    | inr plain ↦ inr (plain, ground arith)
  ]

  permitted :
      {P : Type 0} (w : Services P) (url : Url) (store : Handler P)
      → get_protocol_handler cnf w url.scheme ≡ ok store
      → cnf.is_allowed (scheme_of cnf url) ≡ true
  unfolding get_protocol_handler scheme_of
  permitted w url store h = ground arith

-- An action that ends in a computation without state: what both gave.
bind_result_ok :
    {E S A B : Type 0} (f : A → Result E B) (r : Result E A × S) (b : B) (s : S)
    → bind_result r (λ x t. (f x, t)) ≡ (ok b, s)
    → (x : A) × (r ≡ (ok x, s)) × (f x ≡ ok b)
bind_result_ok f (ok x, t) b s h =
    let same : t ≡ s = ap (λ p. p.1) h in (x, rw same refl, ap (λ p. p.0) h)
bind_result_ok {E = E} {B = B} f (raise x, t) b s h =
    absurd (let e : ◌≡◌ {A = Result E B} (raise x) (ok b) = ap (λ p. p.0) h in cc)

module _ {P : Type 0} (cnf : Config) (w : Services P) where
  from_store_ok :
      (url : Url) (old : Option (Details P)) (d : Details P) (u : UpdateState)
      → from_store cnf w url old ≡ ok (d, u)
      → (store : Handler P) × (get_protocol_handler cnf w url.scheme ≡ ok store)
        × (store.get_project url old ≡ ok d)
        × (u ≡ update_state old d)
  unfolding from_store
  from_store_ok url old d u h = elim (Result-cases (get_protocol_handler cnf w url.scheme)) [
    | inl (x, e) ↦ ground (arith, e, h)
    | inr (store, e) ↦ elim (Result-cases (store.get_project url old)) [
      | inl (x, f) ↦ ground (arith, e, f, h)
      | inr (new, f) ↦
          let g : from_store cnf w url old ≡ ok (new, update_state old new) =
            rw (e, from_store, f) refl in
          let k : ◌≡◌ {A = Result Error (Details P × UpdateState)} (ok (new, update_state old new))
              (ok (d, u)) =
            sym g ∙ h in
          let same : new ≡ d = cc in (store, e, rw (← same) f, rw (← same) cc)
    ]
  ]

  -- What a handler gave, and for which URL.
  abbrev pub Obtained :
      String → Option (Details P) → Aliases → Aliases → Details P → UpdateState → Type 0
  Obtained key old a a' d u =
      (base : Option String) × (url : Url) × (store : Handler P) × (base_url cnf
          (scheme_of cnf (cnf.urlparse key)) a
        ≡ (ok base, a'))
      × Inside cnf base (cnf.urlparse key) url
      × (cnf.is_allowed (scheme_of cnf url) ≡ true)
      × (get_protocol_handler cnf w url.scheme ≡ ok store)
      × (store.get_project url old ≡ ok d)
      × (u ≡ update_state old d)

  -- Project details are only given for a URL that lies under the base URL of the key's scheme, or
  -- that its template gives, or that is the key itself where the scheme has no base; the scheme of
  -- that URL is an allowed one, and the details are what its handler gives for that URL and the
  -- cached details, with the update state that the two timestamps say.
  pub get_project_details-Obtained :
      (key : String) (old : Option (Details P)) (a a' : Aliases) (d : Details P) (u : UpdateState)
      → get_project_details cnf w key old a ≡ (ok (d, u), a')
      → Obtained key old a a' d u
  unfolding get_project_details resolve_alias
  get_project_details-Obtained key old a a' d u h =
      let resolved =
        bind_result_ok (λ url. from_store cnf w url old) (resolve_alias cnf key a) (d, u) a' h in
      let based =
        bind_result_ok (λ base. apply_base cnf base (cnf.urlparse key))
          (base_url cnf (scheme_of cnf (cnf.urlparse key)) a) resolved.0 a' resolved.1 in
      let got = from_store_ok resolved.0 old d u resolved.2 in
      (
        based.0,
        resolved.0,
        got.0,
        based.1,
        apply_base-Inside cnf based.0 (cnf.urlparse key) resolved.0 based.2,
        permitted cnf w resolved.0 got.0 got.1,
        got.1,
        got.2,
        got.3,
      )

-- Finding the base URL of a scheme never raises.
pub base_url_returns :
    (cnf : Config) (scheme : String) (a : Aliases)
    → (base : Option String) × (b : Aliases) × (base_url cnf scheme a ≡ (ok base, b))
unfolding base_url
base_url_returns cnf scheme a = elim (Option-cases (given (Dict.get scheme a))) [
  | inr (known, e) ↦ (some known, a, rw (e, base_url) refl)
  | inl e ↦ elim (Option-cases (cnf.user_scheme scheme)) [
    | inl f ↦ (none, a, rw (e, base_url, f) refl)
    | inr (b, f) ↦ (given (some b), Dict.put scheme b a, rw (e, base_url, f) refl)
  ]
]
