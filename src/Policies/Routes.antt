-- ===== src/Policies/Routes.antt =====
-- Where a request goes by the access policies.
use mathlib.Core.Path.{subst}
use py_qgis_server.Prelude.{
  String, Option, Option-cases, none, some, List, [], ◌∷◌, ◌++◌, ◌≡◌, refl, sym, ap, ◌⊎◌, inl, inr,
  All, Result, ok, raise,
}
use py_qgis_server.Policies.{
  Arguments, Error, Filter, Policy, Request, Route, answer, application, error_handler,
  find_handler, http_error, match_path, other_error, run_filters,
}

-- The route of an exception.
abbrev pub route_of : Error → Route
route_of (http_error code reason) = error_handler code reason
route_of other_error = error_handler 500 none

module _ {R : Type 0} where
  -- No filter matches the path.
  abbrev pub Silent : List (Filter R) → Request R → Type 0
  Silent fs r = All (λ f. match_path f r.path ≡ none) fs

  -- The first filter that matches the path, with its match.
  abbrev pub First : List (Filter R) → Request R → Filter R → String × Arguments → Type 0
  First fs r f m =
      (before after : List (Filter R)) × (fs ≡ before ++ f ∷ after)
      × Silent before r
      × (match_path f r.path ≡ some m)

  -- The filter's function, on the request with the path of the match.
  abbrev pub apply : Filter R → String × Arguments → Request R → Result Error (Unit {0}) × Request R
  apply f m r = f.fn m.1 (record r { path = m.0 })

  -- The policies let the request through: of each one the first filter that matches is applied.
  pub data Passed : List (Policy R) → Request R → Request R → Type 0 where
    done : (r : Request R) → Passed [] r r
    skipped :
        (p : Policy R) (ps : List (Policy R)) (r s : Request R)
        → Silent p.filters r
        → Passed ps r s
        → Passed (p ∷ ps) r s
    applied :
        (p : Policy R) (ps : List (Policy R)) (r s t : Request R) (f : Filter R)
        (m : String × Arguments)
        → First p.filters r f m
        → apply f m r ≡ (ok tt, t)
        → Passed ps t s
        → Passed (p ∷ ps) r s

  -- The first policy of which the filter raises gives the route, and no later one is applied.
  pub data Rejected : List (Policy R) → Request R → Route → Request R → Type 0 where
    rejected :
        (p : Policy R) (ps : List (Policy R)) (r s : Request R) (f : Filter R)
        (m : String × Arguments) (x : Error)
        → First p.filters r f m
        → apply f m r ≡ (raise x, s)
        → Rejected (p ∷ ps) r (route_of x) s
    after_skipped :
        (p : Policy R) (ps : List (Policy R)) (r s : Request R) (route : Route)
        → Silent p.filters r
        → Rejected ps r route s
        → Rejected (p ∷ ps) r route s
    after_applied :
        (p : Policy R) (ps : List (Policy R)) (r s t : Request R) (f : Filter R)
        (m : String × Arguments) (route : Route)
        → First p.filters r f m
        → apply f m r ≡ (ok tt, t)
        → Rejected ps t route s
        → Rejected (p ∷ ps) r route s

  abbrev pub Routed : List (Policy R) → Request R → Route × Request R → Type 0
  Routed ps r (application, s) = Passed ps r s
  Routed ps r (error_handler code reason, s) = Rejected ps r (error_handler code reason) s

  -- What the loop over the filters of one policy does.
  abbrev Ran : List (Filter R) → Request R → Option Route × Request R → Type 0
  Ran fs r (none, s) =
      (Silent fs r × (s ≡ r))
      ⊎ ((f : Filter R) × (m : String × Arguments) × First fs r f m × (apply f m r ≡ (ok tt, s)))
  Ran fs r (some route, s) =
      (f : Filter R) × (m : String × Arguments) × (x : Error) × First fs r f m
      × (apply f m r ≡ (raise x, s))
      × (route ≡ route_of x)

  answer-Ran :
      (fs : List (Filter R)) (r : Request R) (f : Filter R) (m : String × Arguments)
      (a : Result Error (Unit {0}) × Request R)
      → First fs r f m
      → apply f m r ≡ a
      → Ran fs r (answer a)
  unfolding answer
  answer-Ran fs r f m (ok u, s) h e = inr (f, m, h, e)
  answer-Ran fs r f m (raise (http_error code reason), s) h e =
      (f, m, http_error code reason, h, e, refl)
  answer-Ran fs r f m (raise other_error, s) h e = (f, m, other_error, h, e, refl)

  later-First :
      (fs : List (Filter R)) (r : Request R) (g f : Filter R) (m : String × Arguments)
      → match_path g r.path ≡ none
      → First fs r f m
      → First (g ∷ fs) r f m
  later-First fs r g f m h (before, after, e, silent, k) =
      (g ∷ before, after, ap (λ l. g ∷ l) e, (h, silent), k)

  later-Ran :
      (fs : List (Filter R)) (r : Request R) (g : Filter R) (o : Option Route × Request R)
      → match_path g r.path ≡ none
      → Ran fs r o
      → Ran (g ∷ fs) r o
  later-Ran fs r g (none, s) h (inl (silent, e)) = inl ((h, silent), e)
  later-Ran fs r g (none, s) h (inr (f, m, k, e)) = inr (f, m, later-First fs r g f m h k, e)
  later-Ran fs r g (some route, s) h (f, m, x, k, e, q) =
      (f, m, x, later-First fs r g f m h k, e, q)

  run_filters-Ran : (fs : List (Filter R)) (r : Request R) → Ran fs r (run_filters fs r)
  unfolding run_filters
  run_filters-Ran [] r = inl (tt, refl)
  run_filters-Ran (f ∷ fs) r = elim (Option-cases (match_path f r.path)) [
    | inl h ↦
        let e : run_filters (f ∷ fs) r ≡ run_filters fs r = rw (h, run_filters) refl in
        rw e (later-Ran fs r f (run_filters fs r) h (run_filters-Ran fs r))
    | inr (m, h) ↦
        let e : run_filters (f ∷ fs) r ≡ answer (apply f m r) = rw (h, run_filters) refl in
        rw e (answer-Ran (f ∷ fs) r f m (apply f m r) ([], fs, refl, tt, h) refl)
  ]

  -- After the filters of a policy: the next one, or the route of an exception.
  abbrev proceed : Option Route × Request R → Route × Request R → Route × Request R
  proceed (none, s) next = next
  proceed (some route, s) next = (route, s)

  proceed_elim :
      (ran : Option Route × Request R) (next : Route × Request R)
      → ◌≡◌ {A = Route × Request R}
          (elim ran.0 [ none ↦ next | some route ↦ (route, ran.1) ])
          (proceed ran next)
  proceed_elim (none, s) next = refl
  proceed_elim (some route, s) next = refl

  find_handler-proceed :
      (p : Policy R) (ps : List (Policy R)) (r : Request R)
      → find_handler (p ∷ ps) r
        ≡ proceed (run_filters p.filters r) (find_handler ps (run_filters p.filters r).1)
  unfolding find_handler
  find_handler-proceed p ps r =
      proceed_elim (run_filters p.filters r) (find_handler ps (run_filters p.filters r).1)

  skipped-Routed :
      (p : Policy R) (ps : List (Policy R)) (r : Request R) (o : Route × Request R)
      → Silent p.filters r
      → Routed ps r o
      → Routed (p ∷ ps) r o
  skipped-Routed p ps r (application, s) h k = skipped p ps r s h k
  skipped-Routed p ps r (error_handler code reason, s) h k =
      after_skipped p ps r s (error_handler code reason) h k

  applied-Routed :
      (p : Policy R) (ps : List (Policy R)) (r t : Request R) (f : Filter R)
      (m : String × Arguments) (o : Route × Request R)
      → First p.filters r f m
      → apply f m r ≡ (ok tt, t)
      → Routed ps t o
      → Routed (p ∷ ps) r o
  applied-Routed p ps r t f m (application, s) h e k = applied p ps r s t f m h e k
  applied-Routed p ps r t f m (error_handler code reason, s) h e k =
      after_applied p ps r s t f m (error_handler code reason) h e k

  rejected-Routed :
      (p : Policy R) (ps : List (Policy R)) (r s : Request R) (f : Filter R)
      (m : String × Arguments) (x : Error)
      → First p.filters r f m
      → apply f m r ≡ (raise x, s)
      → Routed (p ∷ ps) r (route_of x, s)
  rejected-Routed p ps r s f m (http_error code reason) h e =
      rejected p ps r s f m (http_error code reason) h e
  rejected-Routed p ps r s f m other_error h e = rejected p ps r s f m other_error h e

  proceed-Routed :
      (p : Policy R) (ps : List (Policy R)) (r : Request R) (ran : Option Route × Request R)
      → Ran p.filters r ran
      → ((t : Request R) → Routed ps t (find_handler ps t))
      → Routed (p ∷ ps) r (proceed ran (find_handler ps ran.1))
  proceed-Routed p ps r (none, s) (inl (silent, e)) next =
      skipped-Routed p ps r (find_handler ps s) silent
        (subst (λ t. Routed ps t (find_handler ps s)) e (next s))
  proceed-Routed p ps r (none, s) (inr (f, m, h, e)) next =
      applied-Routed p ps r s f m (find_handler ps s) h e (next s)
  proceed-Routed p ps r (some route, s) (f, m, x, h, e, q) next =
      subst (λ o. Routed (p ∷ ps) r (o, s)) (sym q) (rejected-Routed p ps r s f m x h e)

  -- A request goes to the application exactly as the policies let it through: in their order, the
  -- first filter of each that matches the path as the earlier ones left it has changed it. Or the
  -- filter of one raises, and the request goes to the error handler, with the status and reason of an
  -- `HTTPError` or 500, and no later policy sees it.
  pub find_handler-Routed : (ps : List (Policy R)) (r : Request R) → Routed ps r (find_handler ps r)
  unfolding find_handler
  find_handler-Routed [] r = done r
  find_handler-Routed (p ∷ ps) r = rw (find_handler-proceed p ps r) (
      proceed-Routed p ps r (run_filters p.filters r) (run_filters-Ran p.filters r)
        (find_handler-Routed ps))
