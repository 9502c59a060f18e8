-- ===== src/Broker/Assign.antt =====
-- The inner loop of the broker: which worker takes a request, and who is left available.
use py_qgis_server.Prelude.{
  ℕ, zero, suc, ◌+◌, ◌≤◌, ◌<◌, ◌≡◌, refl, ap, Bytes, true, Option, none, some, List, [], ◌∷◌, arith,
  ◌==◌, ==_iff, string_eq, if◌then◌else◌, length, count, Bool-cases, inl, inr,
}
use py_qgis_server.Broker.{Request, Input, frames, pop_at, assign}

-- How often a worker is the one that was found.
abbrev pub found : Bytes → Option Bytes → ℕ
found v none = 0
found v (some w) = if w == v then 1 else 0

pub count-pop_at :
    (v : Bytes) (n : ℕ) (x : Bytes) (xs : List Bytes)
    → (if (pop_at n x xs).0 == v then 1 else 0) + count v (pop_at n x xs).1 ≡ count v (x ∷ xs)
unfolding pop_at
count-pop_at v zero x xs = refl
count-pop_at v (suc n) x [] = refl
count-pop_at v (suc n) x (y ∷ ys) = omega (arith, count-pop_at v n y ys)

length-pop_at : (n : ℕ) (x : Bytes) (xs : List Bytes) → length (pop_at n x xs).1 ≡ length xs
unfolding pop_at
length-pop_at zero x xs = refl
length-pop_at (suc n) x [] = refl
length-pop_at (suc n) x (y ∷ ys) = ap suc (length-pop_at n y ys)

module _ (i : Input) (q : Request) where
  -- A worker is given away, or stays, or is lost; none appears.
  pub count-assign :
      (v : Bytes) (n : ℕ) (ws : List Bytes)
      → found v (assign i q n ws).1 + count v (assign i q n ws).0 ≤ count v ws
  unfolding assign
  count-assign v zero ws = omega arith
  count-assign v (suc n) [] = omega arith
  count-assign v (suc n) (x ∷ xs) =
      let p = pop_at (i.pick (x ∷ xs)) x xs in
      ground (arith, count-pop_at v (i.pick (x ∷ xs)) x xs, count-assign v n p.1)

  -- The fuel is enough: a request that found no worker leaves none available.
  pub assign-none :
      (n : ℕ) (ws : List Bytes)
      → length ws ≤ n
      → (assign i q n ws).1 ≡ none
      → (assign i q n ws).0 ≡ []
  unfolding assign
  assign-none zero [] h e = refl
  assign-none zero (x ∷ xs) h e = absurd (omega arith)
  assign-none (suc n) [] h e = refl
  assign-none (suc n) (x ∷ xs) h e =
      let p = pop_at (i.pick (x ∷ xs)) x xs in
      ground (arith, length-pop_at (i.pick (x ∷ xs)) x xs, assign-none n p.1)

  pub assign-sends :
      (n : ℕ) (ws : List Bytes) (w : Bytes)
      → (assign i q n ws).1 ≡ some w
      → i.backend_sends (frames w q) ≡ true
  unfolding assign
  assign-sends zero ws w e = cc
  assign-sends (suc n) [] w e = cc
  assign-sends (suc n) (x ∷ xs) w e =
      let p = pop_at (i.pick (x ∷ xs)) x xs in ground (arith, assign-sends n p.1 w)

  -- A worker that can be reached is enough for the request to be sent.
  pub assign-reachable :
      (n : ℕ) (ws : List Bytes) (v : Bytes)
      → length ws ≤ n
      → 0 < count v ws
      → i.backend_sends (frames v q) ≡ true
      → (w : Bytes) × ((assign i q n ws).1 ≡ some w)
  unfolding assign
  assign-reachable zero [] v h c s = absurd (omega arith)
  assign-reachable zero (x ∷ xs) v h c s = absurd (omega arith)
  assign-reachable (suc n) [] v h c s = absurd (omega arith)
  assign-reachable (suc n) (x ∷ xs) v h c s =
      let p = pop_at (i.pick (x ∷ xs)) x xs in
      elim (Bool-cases (i.backend_sends (frames p.0 q))) [
        | inl sent ↦ (p.0, rw sent)
        | inr failed ↦
            let there : 0 < count v p.1 =
              ground (arith, count-pop_at v (i.pick (x ∷ xs)) x xs, ==_iff p.0 v) in
            let (w, e) =
              assign-reachable n p.1 v (omega (arith, length-pop_at (i.pick (x ∷ xs)) x xs)) there
                s in
            (w, rw failed e)
      ]
