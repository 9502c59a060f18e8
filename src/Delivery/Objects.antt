-- ===== src/Delivery/Objects.antt =====
-- What becomes of a handler object: its own messages decide, until it is done.
use py_qgis_server.Prelude.{
  ◌≡◌, refl, ◌∙◌, Bytes, Option, none, some, List, [], ◌∷◌, string_eq, ◌==◌, inl, inr, Bool-cases,
  Option-cases, if◌then◌else◌, Result, ok, raise,
}
use py_qgis_server.Client.{Error, Handler, Handlers, Message, deliver, is_done, receive}
use py_qgis_server.Client.Isolation.{get-receive, kept, own, track}
use py_qgis_server.Delivery.{watch}
use py_qgis_server.Dict.{get}

-- The object after messages of its own, of which those after it is done are not read.
unfoldable pub object : Handler → List Message → Handler
object h [] = h
object h (m ∷ ms) =
    let rest = object (deliver m h).1 ms in
    elim (kept (deliver m h)) [ none ↦ (deliver m h).1 | some g ↦ rest ]

kept-some :
    (r : Result Error (Unit {0}) × Handler) (g : Handler) → kept r ≡ some g → kept r ≡ some r.1
kept-some (raise x, h) g e = refl
kept-some (ok u, h) g e = elim (Bool-cases (is_done h)) [
  | inl d ↦ absurd (let f : ◌≡◌ {A = Option Handler} none (some g) = (rw d refl) ∙ e in cc)
  | inr d ↦ rw d refl
]

module _ (c : Bytes) where
  watch-none :
      (ms : List Message) (table : Handlers) (h : Handler)
      → get c table ≡ none
      → watch c ms table h ≡ h
  unfolding watch
  watch-none [] table h gone = refl
  watch-none (m ∷ ms) table h gone =
      let still : get c (receive m table) ≡ none =
        get-receive m c table
        ∙ rw gone
            (elim (Bool-cases (m.correlation_id == c)) [ inl e ↦ rw e refl | inr e ↦ rw e refl ]) in
      elim (Bool-cases (m.correlation_id == c)) [
        | inl e ↦ rw (e, gone) (watch-none ms (receive m table) h still)
        | inr e ↦ rw e (watch-none ms (receive m table) h still)
      ]

  -- The object is changed by the messages of its own only, as long as the request is not done.
  pub watch-object :
      (ms : List Message) (table : Handlers) (h : Handler)
      → get c table ≡ some h
      → watch c ms table h ≡ object h (own c ms)
  unfolding watch object
  watch-object [] table h there = refl
  watch-object (m ∷ ms) table h there =
      let next : get c (receive m table)
          ≡ (if m.correlation_id == c then track (get c table) m else get c table) =
        get-receive m c table in
      elim (Bool-cases (m.correlation_id == c)) [
        | inl e ↦
            let after : get c (receive m table) ≡ kept (deliver m h) = next ∙ rw (e, there) refl in
            elim (Option-cases (kept (deliver m h))) [
              | inl gone ↦
                  rw (e, there, object, gone)
                    (watch-none ms (receive m table) (deliver m h).1 (after ∙ gone))
              | inr (g, on) ↦
                  rw (e, there, object, on)
                    (watch-object ms (receive m table) (deliver m h).1
                      (after ∙ kept-some (deliver m h) g on))
            ]
        | inr e ↦
            let after : get c (receive m table) ≡ some h = next ∙ rw e there in
            rw e (watch-object ms (receive m table) h after)
      ]
