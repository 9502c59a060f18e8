-- ===== src/Prelude/Classes.antt =====
-- Equality tests as instances: numbers stand for process ids, texts for keys and byte strings.
use Prim.Native.Nat.{ℕ, compare, Ordering}
use Prim.Native.String.{String}
use mathlib.Core.Path.{◌≡◌, refl}
use mathlib.Core.Logic.{◌↔◌}
use mathlib.Core.Bool.{Bool, true, false}
use native.Mathlib.Omega.{arith}
use text.Mathlib.Text.{◌==◌ as text_test}
use text.Mathlib.TextEquality.{eq_iff}

pub record Eq {ℓ} (T : Type ℓ) : Type ℓ where
  pub same : T → T → Bool
  pub same_iff : (s t : T) → (same s t ≡ true) ↔ (s ≡ t)

abbrev nat_test : ℕ → ℕ → Bool
nat_test m n = elim (compare m n) [ Ordering.eq ↦ true | _ ↦ false ]

pub nat_test_iff : (m n : ℕ) → (nat_test m n ≡ true) ↔ (m ≡ n)
nat_test_iff m n = ground arith

instance abbrev pub string_eq : Eq String
string_eq = record { same = text_test; same_iff = eq_iff }

instance abbrev pub nat_eq : Eq ℕ
nat_eq = record { same = nat_test; same_iff = nat_test_iff }

module _ {ℓ} {T : Type ℓ} ⦃tests : Eq T⦄ where
  infix 50 ◌==◌
  abbrev pub ◌==◌ : T → T → Bool
  s == t = tests.same s t

  pub ==_iff : (s t : T) → ((s == t) ≡ true) ↔ (s ≡ t)
  ==_iff = tests.same_iff

  pub ==_self : (s : T) → (s == s) ≡ true
  ==_self s = (tests.same_iff s s).1 refl

  pub ==_comm : (s t : T) → (s == t) ≡ (t == s)
  ==_comm s t = ground (arith, tests.same_iff s t, tests.same_iff t s)
