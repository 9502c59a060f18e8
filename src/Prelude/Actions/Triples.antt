-- ===== src/Prelude/Actions/Triples.antt =====
-- What holds after an action: one predicate if it returns, another one if it raises.
use mathlib.Core.Bool.{Bool, true, false}
use mathlib.Core.Option.{Option, none, some}
use mathlib.Core.Path.{◌≡◌, refl}
use py_qgis_server.Prelude.Actions.{
  Action, pure, throw, bind_result, gets, modify, maybe, when, ◌>>=◌, ◌>>◌,
}
use py_qgis_server.Prelude.Results.{Result, ok, raise}

abbrev pub Outcome {ℓ} :
    {E S A : Type ℓ} → (A → S → Type ℓ) → (E → S → Type ℓ) → Result E A × S → Type ℓ
Outcome Q R (ok a, s) = Q a s
Outcome Q R (raise x, s) = R x s

-- From a state of `P` the action returns in `Q` or raises in `R`.
pub record Leads {ℓ} {E S A : Type ℓ} (P : S → Type ℓ) (Q : A → S → Type ℓ) (R : E → S → Type ℓ)
    (m : Action E S A) : Type ℓ where
  pub at : (s : S) → P s → Outcome Q R (m s)

module _ {ℓ} {E S A : Type ℓ} {P : S → Type ℓ} {Q : A → S → Type ℓ} {R : E → S → Type ℓ} where
  pub Leads-pure : (a : A) → ((s : S) → P s → Q a s) → Leads P Q R (pure a)
  Leads-pure a h = record { at = h }

  pub Leads-throw : (x : E) → ((s : S) → P s → R x s) → Leads P Q R (throw x)
  Leads-throw x h = record { at = h }

  pub Leads-gets : (f : S → A) → ((s : S) → P s → Q (f s) s) → Leads P Q R (gets f)
  Leads-gets f h = record { at = h }

  pub Leads-maybe :
      {B : Type ℓ} (o : Option B) (m : Action E S A) (k : B → Action E S A)
      → (o ≡ none → Leads P Q R m)
      → ((b : B) → o ≡ some b → Leads P Q R (k b))
      → Leads P Q R (maybe o m k)
  Leads-maybe none m k h g = h refl
  Leads-maybe (some b) m k h g = g b refl

module _ {ℓ} {E S : Type ℓ} {P : S → Type ℓ} {Q : Unit {ℓ} → S → Type ℓ} {R : E → S → Type ℓ} where
  pub Leads-modify : (f : S → S) → ((s : S) → P s → Q tt (f s)) → Leads P Q R (modify f)
  Leads-modify f h = record { at = h }

  pub Leads-when :
      (b : Bool) (m : Action E S (Unit {ℓ}))
      → (b ≡ true → Leads P Q R m)
      → (b ≡ false → (s : S) → P s → Q tt s)
      → Leads P Q R (when b m)
  Leads-when true m h g = h refl
  Leads-when false m h g = record { at = g refl }

module _ {ℓ} {E S A B : Type ℓ} {Q : A → S → Type ℓ} {T : B → S → Type ℓ} {R : E → S → Type ℓ} where
  outcome_bind :
      (r : Result E A × S) (k : A → Action E S B)
      → Outcome Q R r
      → ((a : A) → Leads (Q a) T R (k a))
      → Outcome T R (bind_result r k)
  outcome_bind (ok a, s) k h g = (g a).at s h
  outcome_bind (raise x, s) k h g = h

  pub Leads-bind :
      {P : S → Type ℓ} (m : Action E S A) (k : A → Action E S B)
      → Leads P Q R m
      → ((a : A) → Leads (Q a) T R (k a))
      → Leads P T R (m >>= k)
  Leads-bind m k h g = record { at = λ s p. outcome_bind (m s) k (h.at s p) g }

module _ {ℓ} {E S B : Type ℓ} {T : B → S → Type ℓ} {R : E → S → Type ℓ} where
  pub Leads-then :
      {P Q : S → Type ℓ} (m : Action E S (Unit {ℓ})) (k : Action E S B)
      → Leads P (λ u. Q) R m
      → Leads Q T R k
      → Leads P T R (m >> k)
  Leads-then m k h g = Leads-bind m (λ u. k) h (λ u. g)

module _ {ℓ} {E S A : Type ℓ} {Q T : A → S → Type ℓ} (R : E → S → Type ℓ) where
  outcome_after :
      (r : Result E A × S) → Outcome Q R r → ((a : A) (s : S) → Q a s → T a s) → Outcome T R r
  outcome_after (ok a, s) h g = g a s h
  outcome_after (raise x, s) h g = h

  pub Leads-after :
      {P : S → Type ℓ} (m : Action E S A)
      → Leads P Q R m
      → ((a : A) (s : S) → Q a s → T a s)
      → Leads P T R m
  Leads-after m h g = record { at = λ s p. outcome_after (m s) (h.at s p) g }
