-- ===== src/Oom/Order.antt =====
-- The order in which children are killed.
use mathlib.Core.List.{Perm}
use mathlib.Core.List.Perm
use py_qgis_server.Prelude.{
  ℕ, ◌+◌, ◌≤◌, ◌≡◌, refl, List, [], ◌∷◌, arith, tests, leb, leb→le, All, Bool-cases, inl, inr,
}
use py_qgis_server.Oom.{Child, total, insert, sorted}

-- Each child takes no less than any that comes later.
abbrev pub Descending : List Child → Type 0
Descending [] = Unit
Descending (c ∷ cs) = All (λ d. d.mem ≤ c.mem) cs × Descending cs

total-insert : (c : Child) (cs : List Child) → total (insert c cs) ≡ c.mem + total cs
unfolding total insert
total-insert c [] = refl
total-insert c (d ∷ ds) = ground (arith, total-insert c ds)

pub total-sorted : (cs : List Child) → total (sorted cs) ≡ total cs
unfolding sorted total
total-sorted [] = refl
total-sorted (c ∷ cs) = omega (arith, total-insert c (sorted cs), total-sorted cs)

perm-insert : (c : Child) (cs : List Child) → Perm (insert c cs) (c ∷ cs)
unfolding insert
perm-insert c [] = Perm.refl (c ∷ [])
perm-insert c (d ∷ ds) = elim (Bool-cases (leb d.mem c.mem)) [
  | inl first ↦ rw first (Perm.refl (c ∷ d ∷ ds))
  | inr later ↦ rw later (Perm.trans (Perm.cons d (perm-insert c ds)) (Perm.swap c d ds))
]

pub perm-sorted : (cs : List Child) → Perm (sorted cs) cs
unfolding sorted
perm-sorted [] = Perm.refl []
perm-sorted (c ∷ cs) = Perm.trans (perm-insert c (sorted cs)) (Perm.cons c (perm-sorted cs))

All-le-insert :
    (n : ℕ) (c : Child) (cs : List Child)
    → c.mem ≤ n
    → All (λ d. d.mem ≤ n) cs
    → All (λ d. d.mem ≤ n) (insert c cs)
unfolding insert
All-le-insert n c [] h hs = (h, tt)
All-le-insert n c (d ∷ ds) h hs = ground (arith, All-le-insert n c ds h hs.1)

All-le_trans :
    (m n : ℕ) (cs : List Child) → m ≤ n → All (λ d. d.mem ≤ m) cs → All (λ d. d.mem ≤ n) cs
All-le_trans m n [] h hs = tt
All-le_trans m n (d ∷ ds) h hs = (omega arith, All-le_trans m n ds h hs.1)

Descending-insert : (c : Child) (cs : List Child) → Descending cs → Descending (insert c cs)
unfolding insert
Descending-insert c [] h = (tt, tt)
Descending-insert c (d ∷ ds) h = elim (Bool-cases (leb d.mem c.mem)) [
  | inl first ↦
      let le = leb→le d.mem c.mem first in rw first ((le, All-le_trans d.mem c.mem ds le h.0), h)
  | inr later ↦
      rw later (All-le-insert d.mem c ds (omega (tests, later)) h.0, Descending-insert c ds h.1)
]

pub sorted-Descending : (cs : List Child) → Descending (sorted cs)
unfolding sorted
sorted-Descending [] = tt
sorted-Descending (c ∷ cs) = Descending-insert c (sorted cs) (sorted-Descending cs)
