-- ===== src/Runtime/Memo.antt =====
-- Decorators that evaluate a function once (src/pyqgisserver/utils/decorators.py), and the monitor
-- that is created once (src/pyqgisserver/monitor.py).
use py_qgis_server.Prelude.{
  String, Option, none, some, ◌≡◌, refl, sym, ap, ◌∙◌, string_eq, ◌==◌, if◌then◌else◌, Result, ok,
  raise,
}
use py_qgis_server.Prelude.Actions.{Action}

-- The value that is kept, and the rest of the program.
abbrev pub Kept : Type 0 → Type 0 → Type 0
Kept W A = Option A × W

same_value : {E A : Type 0} (a b : A) → ◌≡◌ {A = Result E A} (ok b) (ok a) → b ≡ a
same_value a b h = cc

module _ {E W A : Type 0} where
  -- The value is kept if the function does not raise.
  unfoldable pub keep : Result E A × W → Result E A × Kept W A
  keep (ok a, w) = (ok a, (some a, w))
  keep (raise x, w) = (raise x, (none, w))

  -- `once.__call__`, and `singleton.__call__` of a class
  unfoldable pub once : Action E W A → Action E (Kept W A) A
  unfolding keep
  once f (none, w) = keep (f w)
  once f (some a, w) = (ok a, (some a, w))

  keep-some : (r : Result E A × W) (k : Kept W A) (a : A) → keep r ≡ (ok a, k) → k.0 ≡ some a
  unfolding keep
  keep-some (ok b, w) k a h = ap (λ p. p.1.0) (sym h) ∙ ap some (same_value a b (ap (λ p. p.0) h))
  keep-some (raise x, w) k a h =
      absurd (let e : ◌≡◌ {A = Result E A} (raise x) (ok a) = ap (λ p. p.0) h in cc)

  once-some : (f : Action E W A) (k l : Kept W A) (a : A) → once f k ≡ (ok a, l) → l.0 ≡ some a
  unfolding once
  once-some f (none, w) l a h = keep-some (f w) l a h
  once-some f (some b, w) l a h =
      ap (λ p. p.1.0) (sym h) ∙ ap some (same_value a b (ap (λ p. p.0) h))

  -- After a call that returned, every other one returns the same, and changes nothing.
  pub once-once :
      (f g : Action E W A) (k l : Kept W A) (a : A) → once f k ≡ (ok a, l) → once g l ≡ (ok a, l)
  unfolding once
  once-once f g k l a h = rw (once-some f k l a h, once) refl

-- `Monitor.instance`, where `load` is the entry point of a name: `none` is `EntryPointNotFoundError`
unfoldable pub monitor_instance :
    {M : Type 0} → (String → Option M) → Option String → Option M → Option M × Option M
monitor_instance load name (some kept) = (some kept, some kept)
monitor_instance load none none = (none, none)
monitor_instance load (some name) none = if name == "" then (none, none) else (load name, load name)
