-- ===== src/Prelude/Actions/Invariants.antt =====
-- Rules for what an action preserves, whether it returns or raises.
use mathlib.Core.Bool.{Bool, true, false}
use py_qgis_server.Prelude.Actions.{
  Action, pure, throw, catch, catch_result, bind_result, gets, ◌>>=◌,
}
use py_qgis_server.Prelude.Results.{Result, ok, raise}
use py_qgis_server.Prelude.Tests.{if◌then◌else◌}

pub record Preserves {ℓ} {E S A : Type ℓ} (I : S → Type ℓ) (m : Action E S A) : Type ℓ where
  pub at : (s : S) → I s → I (m s).1

module _ {ℓ} {E S A : Type ℓ} {I : S → Type ℓ} where
  pub Preserves-pure : (a : A) → Preserves {E = E} I (pure a)
  Preserves-pure a = record { at = λ s h. h }

  pub Preserves-throw : (x : E) → Preserves {A = A} I (throw x)
  Preserves-throw x = record { at = λ s h. h }

  pub Preserves-gets : (g : S → A) → Preserves {E = E} I (gets g)
  Preserves-gets g = record { at = λ s h. h }

  catch_preserves :
      (r : Result E A × S) (k : E → Action E S A)
      → ((x : E) → Preserves I (k x))
      → I r.1
      → I (catch_result r k).1
  catch_preserves (ok a, s) k h i = i
  catch_preserves (raise x, s) k h i = (h x).at s i

  pub Preserves-catch :
      (m : Action E S A) (k : E → Action E S A)
      → Preserves I m
      → ((x : E) → Preserves I (k x))
      → Preserves I (catch m k)
  Preserves-catch m k h g = record { at = λ s i. catch_preserves (m s) k g (h.at s i) }

  pub Preserves-if :
      (b : Bool) (m k : Action E S A)
      → Preserves I m
      → Preserves I k
      → Preserves I (if b then m else k)
  Preserves-if true m k h g = h
  Preserves-if false m k h g = g

module _ {ℓ} {E S A B : Type ℓ} {I : S → Type ℓ} where
  bind_preserves :
      (r : Result E A × S) (k : A → Action E S B)
      → ((a : A) → Preserves I (k a))
      → I r.1
      → I (bind_result r k).1
  bind_preserves (ok a, s) k h i = (h a).at s i
  bind_preserves (raise x, s) k h i = i

  pub Preserves-bind :
      (m : Action E S A) (k : A → Action E S B)
      → Preserves I m
      → ((a : A) → Preserves I (k a))
      → Preserves I (m >>= k)
  Preserves-bind m k h g = record { at = λ s i. bind_preserves (m s) k g (h.at s i) }

pub ruleset preserves_rules =
    (Preserves-pure, Preserves-throw, Preserves-gets, Preserves-catch, Preserves-if, Preserves-bind)
