-- ===== src/Prelude/Actions.antt =====
-- Methods that change an object and may raise: what was written before an exception stays written.
pub mod Invariants
pub mod Rules
pub mod Triples
use mathlib.Core.Bool.{Bool, true, false}
use mathlib.Core.Option.{Option, none, some}
use py_qgis_server.Prelude.Results.{Result, ok, raise}

abbrev pub Action {ℓ} : Type ℓ → Type ℓ → Type ℓ → Type ℓ
Action E S A = S → Result E A × S

module _ {ℓ} {E S A : Type ℓ} where
  abbrev pub pure : A → Action E S A
  pure a s = (ok a, s)

  abbrev pub throw : E → Action E S A
  throw x s = (raise x, s)

  abbrev pub catch_result : Result E A × S → (E → Action E S A) → Result E A × S
  catch_result (ok a, s) h = (ok a, s)
  catch_result (raise x, s) h = h x s

  -- `try: m` with `except: h`
  abbrev pub catch : Action E S A → (E → Action E S A) → Action E S A
  catch m h s = catch_result (m s) h

module _ {ℓ} {E S : Type ℓ} where
  abbrev pub modify : (S → S) → Action E S (Unit {ℓ})
  modify f s = (ok tt, f s)

  abbrev pub gets : {A : Type ℓ} → (S → A) → Action E S A
  gets f s = (ok (f s), s)

module _ {ℓ} {E S A B : Type ℓ} where
  abbrev pub bind_result : Result E A × S → (A → Action E S B) → Result E B × S
  bind_result (ok a, s) f = f a s
  bind_result (raise x, s) f = (raise x, s)

  infixl 5 ◌>>=◌ ◌>>◌
  abbrev pub ◌>>=◌ : Action E S A → (A → Action E S B) → Action E S B
  ◌>>=◌ m f s = bind_result (m s) f

  abbrev pub ◌>>◌ : Action E S A → Action E S B → Action E S B
  m >> k = m >>= λ _. k

module _ {ℓ} {E S : Type ℓ} where
  -- `if b: m`
  abbrev pub when : Bool → Action E S (Unit {ℓ}) → Action E S (Unit {ℓ})
  when true m = m
  when false m = pure tt

module _ {ℓ} {E S A B : Type ℓ} where
  -- `if o is None: m`, `else: k(o)`
  abbrev pub maybe : Option B → Action E S A → (B → Action E S A) → Action E S A
  maybe none m k = m
  maybe (some b) m k = k b
