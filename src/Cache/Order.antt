-- ===== src/Cache/Order.antt =====
-- `refresh` keeps the order of the LRU table.
use mathlib.Core.List.{map-append, reverse-reverse, append_assoc, append-nil}
use py_qgis_server.Prelude.{
  String, List, [], ◌∷◌, ◌++◌, map, reverse, reverse-cons, string_eq, ◌≡◌, ◌∙◌, refl, sym, ap, inl,
  inr, Result, ok, raise,
}
use py_qgis_server.Prelude.Actions.{pure, bind_result, ◌>>=◌, ◌>>◌}
use py_qgis_server.Cache.{
  Details, Manager, Services, UpdateState, update_entry, update_static_entry, set_static,
  on_aliases, get_project_details,
}
use py_qgis_server.Cache.Refresh.{update_statics, update_entries, refresh_keys, refresh}
use py_qgis_server.Cache.Updates.{update_entry-Written}
use py_qgis_server.Cache.Urls.{Config, Error}
use py_qgis_server.Dict
use py_qgis_server.Dict.{Dict}
use py_qgis_server.Lru
use py_qgis_server.Lru.{IsValid}
use py_qgis_server.Lru.Renewal.{table_renewed}

-- What a chain of two actions did when it returns.
bind_ok :
    {E S A B : Type 0} (r : Result E A × S) (f : A → S → Result E B × S) (b : B) (s : S)
    → bind_result r f ≡ (ok b, s)
    → (a : A) × (t : S) × (r ≡ (ok a, t)) × (f a t ≡ (ok b, s))
bind_ok (ok a, t) f b s h = (a, t, refl, h)
bind_ok {E = E} {B = B} (raise x, t) f b s h =
    absurd (let e : ◌≡◌ {A = Result E B} (raise x) (ok b) = ap (λ p. p.0) h in cc)

module _ {P : Type 0} where
  names : Dict String (Details P) → List String
  names = map (λ e. e.0)

module _ {P : Type 0} (cnf : Config) (w : String → Services P) where
  renewed :
      (key : String) (v : Details P) (rest : Dict String (Details P)) (m m' : Manager P)
      (u : UpdateState)
      → IsValid m.lru
      → m.lru.table ≡ (key, v) ∷ rest
      → update_entry cnf (w key) key m ≡ (ok u, m')
      → (d : Details P) × (m'.lru.table ≡ rest ++ (key, d) ∷ []) × IsValid m'.lru
  renewed key v rest m m' u h t e =
      elim (update_entry-Written cnf (w key) key m h _ _ _ _ refl refl refl) [
        | inl (x, _, f) ↦ absurd (
            let g : ◌≡◌ {A = Result Error UpdateState} (raise x) (ok u) =
              ap (λ p. p.0) (sym f ∙ e) in
            cc)
        | inr (d, _, c, _, f, valid, _, _, its) ↦
            let same : c ≡ m'.lru = ap (λ p. p.1.lru) (sym f ∙ e) in
            (d, rw (← same) (table_renewed m.lru c key v d rest h t its), rw (← same) valid)
      ]

  rotate :
      (todo done : Dict String (Details P)) (m m' : Manager P)
      (states : List (String × UpdateState))
      → IsValid m.lru
      → m.lru.table ≡ todo ++ done
      → update_entries cnf w (names todo) m ≡ (ok states, m')
      → (names m'.lru.table ≡ names done ++ names todo)
        × (map (λ e. e.0) states ≡ names todo)
        × IsValid m'.lru
  unfolding update_entries names
  rotate [] done m m' states h t e =
      let same : m ≡ m' = ap (λ p. p.1) e in
      let k : ◌≡◌ {A = Result Error (List (String × UpdateState))} (ok []) (ok states) =
        ap (λ p. p.0) e in
      let none_left : [] ≡ states = cc in
      (rw (← same, t, append-nil) refl, rw (← none_left) refl, rw (← same) h)
  rotate ((key, v) ∷ todo) done m m' states h t e =
      let first =
        bind_ok (update_entry cnf (w key) key m)
          (λ u. update_entries cnf w (names todo) >>= λ states. pure ((key, u) ∷ states)) states m'
          e in
      let new = renewed key v (todo ++ done) m first.1 first.0 h t first.2 in
      let more =
        bind_ok (update_entries cnf w (names todo) first.1)
          (λ states. pure ((key, first.0) ∷ states)) states m' first.3 in
      let ih =
        rotate todo (done ++ (key, new.0) ∷ []) first.1 more.1 more.0 new.2
          (new.1 ∙ append_assoc todo done ((key, new.0) ∷ [])) more.2 in
      let same : more.1 ≡ m' = ap (λ p. p.1) more.3 in
      let k : ◌≡◌ {A = Result Error (List (String × UpdateState))} (ok ((key, first.0) ∷ more.0))
          (ok states) =
        ap (λ p. p.0) more.3 in
      let all : (key, first.0) ∷ more.0 ≡ states = cc in
      (
        rw (← same) (ih.0 ∙ rw (map-append) (append_assoc (names done) (key ∷ []) (names todo))),
        rw (← all) (ap (λ ks. key ∷ ks) ih.1),
        rw (← same) ih.2,
      )

module _ {P : Type 0} where
  map-reverse : (d : Dict String (Details P)) → map (λ e. e.0) (reverse d) ≡ reverse (names d)
  unfolding names
  map-reverse [] = refl
  map-reverse (x ∷ d) = rw (reverse-cons, map-append, map-reverse d, reverse-cons) refl

  refresh_keys_lem : (m : Manager P) → refresh_keys m ≡ names m.lru.table
  unfolding refresh_keys names
  refresh_keys_lem m = ap reverse (map-reverse m.lru.table) ∙ reverse-reverse (names m.lru.table)

  -- An action that leaves the LRU table alone, after one that does.
  bind_lru :
      {A B : Type 0} (l : Lru.Lru String (Details P)) (r : Result Error A × Manager P)
      (f : A → Manager P → Result Error B × Manager P)
      → r.1.lru ≡ l
      → ((a : A) (s : Manager P) → (f a s).1.lru ≡ s.lru)
      → (bind_result r f).1.lru ≡ l
  bind_lru l (ok a, s) f h g = g a s ∙ h
  bind_lru l (raise x, s) f h g = h

module _ {P : Type 0} (cnf : Config) (w : String → Services P) where
  update_static_lru :
      (key : String) (m : Manager P) → (update_static_entry cnf (w key) key m).1.lru ≡ m.lru
  unfolding update_static_entry set_static
  update_static_lru key m =
      bind_lru m.lru (on_aliases (get_project_details cnf (w key) key (Dict.get key m.static)) m)
        (λ r. set_static key r.0 >> pure r.1) refl (λ r s. refl)

  update_statics_lru :
      (keys : List String) (m : Manager P) → (update_statics cnf w keys m).1.lru ≡ m.lru
  unfolding update_statics
  update_statics_lru [] m = refl
  update_statics_lru (key ∷ rest) m =
      bind_lru m.lru (update_static_entry cnf (w key) key m) (λ _. update_statics cnf w rest)
        (update_static_lru key m) (λ _ s. update_statics_lru rest s)

  -- A refresh of a valid LRU table that returns keeps the keys of that table and their order, and
  -- has updated them from the least to the most recent; the table stays valid.
  pub refresh_order :
      (m m' : Manager P) (states : List (String × UpdateState))
      → IsValid m.lru
      → refresh cnf w m ≡ (ok states, m')
      → (Lru.keys m'.lru ≡ Lru.keys m.lru)
        × (map (λ e. e.0) states ≡ reverse (Lru.keys m.lru))
        × IsValid m'.lru
  unfolding refresh Lru.keys names
  refresh_order m m' states h e =
      let fixed =
        bind_ok (update_statics cnf w (map (λ e. e.0) m.static) m)
          (λ _. (λ n. update_entries cnf w (refresh_keys n) n)) states m' e in
      let same : fixed.1.lru ≡ m.lru =
        sym (ap (λ p. p.1.lru) fixed.2) ∙ update_statics_lru (map (λ e. e.0) m.static) m in
      let turned =
        rotate cnf w fixed.1.lru.table [] fixed.1 m' states (rw same h)
          (sym (append-nil fixed.1.lru.table)) (rw (← refresh_keys_lem fixed.1) fixed.3) in
      let t : fixed.1.lru.table ≡ m.lru.table = ap (λ c. c.table) same in
      (
        ap reverse turned.0 ∙ ap (λ d. reverse (names d)) t,
        turned.1 ∙ ap names t ∙ sym (reverse-reverse (names m.lru.table)),
        turned.2,
      )
