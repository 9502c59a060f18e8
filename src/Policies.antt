-- ===== src/Policies.antt =====
-- Access policies (src/pyqgisserver/middleware.py) and their filters
-- (src/pyqgisservercontrib/core/filters.py). Priorities are natural numbers.
mod Examples
pub mod Routes
use py_qgis_server.Prelude.{
  ℕ, String, Bool, true, false, Option, none, some, List, [], ◌∷◌, ltb, string_eq, ◌==◌,
  if◌then◌else◌, Result, ok, raise,
}
use py_qgis_server.Prelude.Actions.{Action}

-- What a match gives a filter's function.
pub data Arguments : Type 0 where
  positional : List (Option String) → Arguments
  named : List (String × Option String) → Arguments

-- A compiled regular expression: the groups of a match at the start of a path, and `sub`.
pub record Pattern : Type 0 where
  pub match_at : String → Option Arguments
  pub sub : String → String → String

-- `HTTPError`, or any other exception of a filter.
pub data Error : Type 0 where
  http_error : ℕ → Option String → Error
  other_error : Error

-- `path`, and the rest of the request, which a filter may change.
pub record Request (R : Type 0) : Type 0 where
  pub path : String
  pub rest : R

pub record Filter (R : Type 0) : Type 0 where
  pub pattern : Option Pattern
  pub repl : Option String
  pub fn : Arguments → Action Error (Request R) (Unit {0})

pub record Policy (R : Type 0) : Type 0 where
  pub pri : ℕ
  pub filters : List (Filter R)

-- Where a request goes: to the error handler with a status and a reason, or to the application.
pub data Route : Type 0 where
  error_handler : ℕ → Option String → Route
  application : Route

-- `path = self.pattern.sub(self.repl, path, count=1)`, if there is a replacement that is not empty
unfoldable pub replaced : Pattern → Option String → String → String
replaced p none path = path
replaced p (some r) path = if r == "" then path else p.sub r path

module _ {R : Type 0} where
  -- `match`: the path and what the function is applied to; a filter without a pattern matches
  unfoldable pub match_path : Filter R → String → Option (String × Arguments)
  unfolding replaced
  match_path f path = elim f.pattern [
    | none ↦ some (path, positional [])
    | some p ↦ elim (p.match_at path) [
      | none ↦ none
      | some groups ↦ some (replaced p f.repl path, groups)
    ]
  ]

  -- `filt.apply`, and the `except` clauses: `none` if the loop over the policies goes on
  unfoldable pub answer : Result Error (Unit {0}) × Request R → Option Route × Request R
  answer (ok u, s) = (none, s)
  answer (raise (http_error code reason), s) = (some (error_handler code reason), s)
  answer (raise other_error, s) = (some (error_handler 500 none), s)

  -- The loop over the filters of a policy, until one matches.
  unfoldable pub run_filters : List (Filter R) → Request R → Option Route × Request R
  unfolding match_path answer
  run_filters [] r = (none, r)
  run_filters (f ∷ fs) r =
      let later = run_filters fs r in
      elim (match_path f r.path) [
        | none ↦ later
        | some m ↦ answer (f.fn m.1 (record r { path = m.0 }))
      ]

  -- `find_handler`
  unfoldable pub find_handler : List (Policy R) → Request R → Route × Request R
  unfolding run_filters
  find_handler [] r = (application, r)
  find_handler (p ∷ ps) r =
      let ran = run_filters p.filters r in
      let next = find_handler ps ran.1 in elim ran.0 [ none ↦ next | some route ↦ (route, ran.1) ]

  -- A policy goes behind those of the same priority.
  unfoldable pub insert : Policy R → List (Policy R) → List (Policy R)
  insert p [] = p ∷ []
  insert p (q ∷ qs) = let rest = insert p qs in if ltb q.pri p.pri then p ∷ (q ∷ qs) else q ∷ rest

  -- `collection.sort(key=..., reverse=True)`, which keeps the order of equal priorities
  unfoldable pub sorted : List (Policy R) → List (Policy R)
  unfolding insert
  sorted ps = insert_all ps []
    where
      insert_all : List (Policy R) → List (Policy R) → List (Policy R)
      insert_all [] done = done
      insert_all (p ∷ rest) done = insert_all rest (insert p done)

  -- the entries that are filters
  unfoldable pub only_filters : List (Option (Filter R)) → List (Filter R)
  only_filters [] = []
  only_filters (none ∷ fs) = only_filters fs
  only_filters (some f ∷ fs) = f ∷ only_filters fs

  -- `add_filters`, on the collection
  unfoldable pub add_filters : List (Policy R) → List (Option (Filter R)) → ℕ → List (Policy R)
  unfolding only_filters
  add_filters [] filters pri = record { pri = pri; filters = only_filters filters } ∷ []
  add_filters (p ∷ ps) filters pri = p ∷ add_filters ps filters pri

  -- `load_access_policies`, for the calls of `add_filters` that the entry points make
  unfoldable pub load_access_policies : List (List (Option (Filter R)) × ℕ) → List (Policy R)
  unfolding add_filters sorted
  load_access_policies calls = sorted (collect calls [])
    where
      collect : List (List (Option (Filter R)) × ℕ) → List (Policy R) → List (Policy R)
      collect [] done = done
      collect ((filters, pri) ∷ rest) done = collect rest (add_filters done filters pri)
