-- ===== src/Prelude/Actions/Rules.antt =====
-- Rules for actions: what they leave alone, what they return, and what a chain did.
use mathlib.Core.Bool.{Bool, true, false}
use mathlib.Core.Option.{Option, none, some}
use mathlib.Core.Path.{◌≡◌, refl, ap, ◌∙◌}
use py_qgis_server.Prelude.Actions.{
  Action, pure, throw, catch, catch_result, bind_result, gets, when, maybe, ◌>>=◌,
}
use py_qgis_server.Prelude.Results.{Result, ok, raise}
use py_qgis_server.Prelude.Tests.{if◌then◌else◌}

-- The action leaves `f` of the state alone, also when it raises.
pub record Keeps {ℓ} {E S A C : Type ℓ} (f : S → C) (m : Action E S A) : Type ℓ where
  pub at : (s : S) → f (m s).1 ≡ f s

-- What the action returns meets `Q`.
pub record Returns {ℓ} {E S A : Type ℓ} (Q : A → Type ℓ) (m : Action E S A) : Type ℓ where
  pub value : (s : S) (a : A) → (m s).0 ≡ ok a → Q a

module _ {ℓ} {E S A C : Type ℓ} {f : S → C} where
  pub Keeps-pure : (a : A) → Keeps {E = E} f (pure a)
  Keeps-pure a = record { at = λ s. refl }

  pub Keeps-throw : (x : E) → Keeps {A = A} f (throw x)
  Keeps-throw x = record { at = λ s. refl }

  pub Keeps-gets : (g : S → A) → Keeps {E = E} f (gets g)
  Keeps-gets g = record { at = λ s. refl }

  catch_result-Keeps :
      (r : Result E A × S) (h : E → Action E S A)
      → ((x : E) → Keeps f (h x))
      → f (catch_result r h).1 ≡ f r.1
  catch_result-Keeps (ok a, s) h g = refl
  catch_result-Keeps (raise x, s) h g = (g x).at s

  pub Keeps-catch :
      (m : Action E S A) (h : E → Action E S A)
      → Keeps f m
      → ((x : E) → Keeps f (h x))
      → Keeps f (catch m h)
  Keeps-catch m h k g = record { at = λ s. catch_result-Keeps (m s) h g ∙ k.at s }

  pub Keeps-if :
      (b : Bool) (m k : Action E S A) → Keeps f m → Keeps f k → Keeps f (if b then m else k)
  Keeps-if true m k h g = h
  Keeps-if false m k h g = g

module _ {ℓ} {E S C : Type ℓ} {f : S → C} where
  pub Keeps-when : (b : Bool) (m : Action E S (Unit {ℓ})) → Keeps f m → Keeps f (when b m)
  Keeps-when true m h = h
  Keeps-when false m h = record { at = λ s. refl }

module _ {ℓ} {E S A B C : Type ℓ} {f : S → C} where
  pub bind_result-Keeps :
      (r : Result E A × S) (k : A → Action E S B)
      → ((a : A) → Keeps f (k a))
      → f (bind_result r k).1 ≡ f r.1
  bind_result-Keeps (ok a, s) k h = (h a).at s
  bind_result-Keeps (raise x, s) k h = refl

  pub Keeps-bind :
      (m : Action E S A) (k : A → Action E S B)
      → Keeps f m
      → ((a : A) → Keeps f (k a))
      → Keeps f (m >>= k)
  Keeps-bind m k h g = record { at = λ s. bind_result-Keeps (m s) k g ∙ h.at s }

  pub Keeps-option :
      (o : Option B) (m : Action E S A) (k : B → Action E S A)
      → Keeps f m
      → ((b : B) → Keeps f (k b))
      → Keeps f (maybe o m k)
  Keeps-option none m k h g = h
  Keeps-option (some b) m k h g = g b

pub ruleset keeps_rules = (
  Keeps-pure, Keeps-throw, Keeps-gets, Keeps-catch, Keeps-if, Keeps-when, Keeps-bind, Keeps-option,
)

returned {ℓ} :
    {E B : Type ℓ} (Q : B → Type ℓ) {b : B}
    → Q b
    → (a : B) → ◌≡◌ {A = Result E B} (ok b) (ok a)
    → Q a
returned Q {b} q a e = let same : b ≡ a = cc in rw (← same) q

raised {ℓ} : {E B : Type ℓ} (x : E) (a : B) → ◌≡◌ {A = Result E B} (raise x) (ok a) → ⊥
raised x a e = cc

module _ {ℓ} {E S A B : Type ℓ} where
  bind_result_returns :
      (Q : B → Type ℓ) (r : Result E A × S) (k : A → Action E S B)
      → ((a : A) → Returns Q (k a))
      → (b : B) → (bind_result r k).0 ≡ ok b
      → Q b
  bind_result_returns Q (ok a, s) k h b e = (h a).value s b e
  bind_result_returns Q (raise x, s) k h b e = absurd (cc)

  pub Returns-bind :
      (Q : B → Type ℓ) (m : Action E S A) (k : A → Action E S B)
      → ((a : A) → Returns Q (k a))
      → Returns Q (m >>= k)
  Returns-bind Q m k h = record { value = λ s b e. bind_result_returns Q (m s) k h b e }

module _ {ℓ} {E S B : Type ℓ} where
  pub Returns-pure : (Q : B → Type ℓ) (b : B) → Q b → Returns {E = E} {S = S} Q (pure b)
  Returns-pure Q b q = record { value = λ s a e. returned Q q a e }

  pub Returns-throw : (Q : B → Type ℓ) (x : E) → Returns {S = S} Q (throw x)
  Returns-throw Q x = record { value = λ s a e. absurd (raised x a e) }

  pub Returns-maybe :
      {A : Type ℓ} (Q : B → Type ℓ) (o : Option A) (m : Action E S B) (k : A → Action E S B)
      → Returns Q m
      → ((a : A) → Returns Q (k a))
      → Returns Q (maybe o m k)
  Returns-maybe Q none m k h g = h
  Returns-maybe Q (some a) m k h g = g a

  pub Returns-if :
      (Q : B → Type ℓ) (b : Bool) (m k : Action E S B)
      → Returns Q m
      → Returns Q k
      → Returns Q (if b then m else k)
  Returns-if Q true m k h g = h
  Returns-if Q false m k h g = g

module _ {ℓ} {E S A B : Type ℓ} where
  -- What a chain of two actions did when it returns.
  pub bind_ok :
      (r : Result E A × S) (k : A → Action E S B) (b : B) (s : S)
      → bind_result r k ≡ (ok b, s)
      → (a : A) × (t : S) × (r ≡ (ok a, t)) × (k a t ≡ (ok b, s))
  bind_ok (ok a, t) k b s h = (a, t, refl, h)
  bind_ok (raise x, t) k b s h =
      absurd (let e : ◌≡◌ {A = Result E B} (raise x) (ok b) = ap (λ p. p.0) h in cc)

pub ruleset returns_rules = (Returns-bind, Returns-maybe, Returns-if, Returns-pure, Returns-throw)
