-- ===== src/QgisRequest/Served.antt =====
-- Which project a request gives to QGIS.
use py_qgis_server.Prelude.{
  ℕ, Option-cases, String, Bool, true, Option, none, some, List, [], ◌∷◌, ◌++◌, string_eq, ◌≡◌, ◌∙◌,
  ◌⊎◌, inl, inr, refl, sym, ap, Result, ok, raise, Bool-cases,
}
use py_qgis_server.Prelude.Actions.{Action, catch_result, bind_result, ◌>>=◌}
use py_qgis_server.Prelude.Actions.Rules.{
  Keeps, Returns, keeps_rules, returns_rules, Returns-bind, Returns-if, Returns-pure,
}
use py_qgis_server.Cache.{Details, Manager, UpdateState, on_aliases, peek}
use py_qgis_server.Cache.Lookups.{lookup-Found}
use py_qgis_server.Cache.Times.{get_modified_time, stored_time}
use py_qgis_server.Cache.Urls
use py_qgis_server.Lru
use py_qgis_server.Lru.{IsValid}
use py_qgis_server.QgisRequest.{
  always_refresh, answer_error, check_etag_header, finish_response, handle_qgis_request,
  prepare_project, rescue, serve_project, set_etag_header, use_project,
}
use py_qgis_server.QgisRequest.State.{
  Context, Error, Session, call_qgis, on_cache, on_response, remove_entry,
}
use py_qgis_server.Worker
use py_qgis_server.Response.{Response}

-- The part of the state that only the cache's lookup and the call of QGIS write.
abbrev Served : Type 0 → Type 0
Served P = Lru.Lru String (Details P) × List (Option P)

module _ {P : Type 0} (c : Context P) where
  abbrev served : Session P → Served P
  served s = (s.cache.lru, s.handled)

  stored_time-Keeps :
      (key : String) (m : Manager P)
      → (on_aliases
          (Urls.resolve_alias c.urls key >>= λ url. (λ a. (stored_time c.urls c.services url, a)))
          m).1.lru
        ≡ m.lru
  stored_time-Keeps key m = refl

  get_modified_time-Keeps :
      (key : String) (from_cache : Bool) (m : Manager P)
      → (get_modified_time c.urls c.services c.last_modified key from_cache m).1.lru ≡ m.lru
  unfolding get_modified_time
  get_modified_time-Keeps key from_cache m = elim (Option-cases (peek m key)) [
    | inl e ↦ rw (e, get_modified_time) refl
    | inr (d, e) ↦ elim (Bool-cases from_cache) [
      | inl b ↦ rw (e, get_modified_time, b) refl
      | inr b ↦ elim (Option-cases (c.last_modified d.project)) [
        | inl n ↦ rw (e, get_modified_time, b, n) refl
        | inr (t, n) ↦ rw (e, get_modified_time, b, n) refl
      ]
    ]
  ]

  on_response-Keeps :
      {A : Type 0} (m : Action Worker.Error Response A) → Keeps served (on_response {P = P} m)
  on_response-Keeps m = record { at = λ s. refl }

  remove_entry-Keeps : (path : String) → Keeps served (remove_entry {P = P} path)
  unfolding remove_entry
  remove_entry-Keeps path = record { at = λ s. refl }

  get_time-Keeps :
      (key : String)
      → Keeps served
          (on_cache {P = P} (get_modified_time c.urls c.services c.last_modified key true))
  get_time-Keeps key = record {
    at = λ s. ap (λ l. (l, s.handled)) (get_modified_time-Keeps key true s.cache);
  }

  ruleset served_rules = (keeps_rules, on_response-Keeps, remove_entry-Keeps, get_time-Keeps)

  set_etag_header-Keeps : (uri : String) (t : ℕ) → Keeps served (set_etag_header c uri t)
  unfolding set_etag_header
  set_etag_header-Keeps uri t = search served_rules

  check_etag_header-Keeps : (uri : String) (t : ℕ) → Keeps served (check_etag_header c uri t)
  unfolding check_etag_header
  check_etag_header-Keeps uri t = search (served_rules, set_etag_header-Keeps)

  use_project-Keeps :
      (scheme : Option String) (location : String) (request_id : Option String)
      (p : P × UpdateState)
      → Keeps served (use_project c scheme location request_id p)
  unfolding use_project finish_response
  use_project-Keeps scheme location request_id (project, state) =
      search (served_rules, check_etag_header-Keeps) depth 30

  -- The project is that of the lookup, if there is one.
  abbrev Same : P → Option P → Type 0
  Same p none = Unit
  Same p (some q) = q ≡ p

  use_project-Returns :
      (scheme : Option String) (location : String) (request_id : Option String) (p : P)
      (u : UpdateState)
      → Returns (Same p) (use_project c scheme location request_id (p, u))
  unfolding use_project
  use_project-Returns scheme location request_id p u =
      search (returns_rules, Returns-bind, Returns-if, Returns-pure, Returns-pure) depth 30

  rescue-Keeps : (location : String) (x : Error) → Keeps served (rescue c location x)
  unfolding rescue answer_error
  rescue-Keeps location x = search served_rules

  rescue-Returns : (location : String) (x : Error) → Returns (λ o. o ≡ none) (rescue c location x)
  unfolding rescue answer_error
  rescue-Returns location x = search returns_rules

  module _ (location : String) (s : Session P) where
    -- A state from which QGIS may be called with a project, or need not be called.
    abbrev Given : Session P → Option P → Type 0
    Given t none = Unit
    Given t (some p) = (d : Details P) × (Lru.peek t.cache.lru location ≡ some d) × (d.project ≡ p)

    abbrev Prepared : Result Error (Option P) × Session P → Type 0
    Prepared (ok o, t) = (t.handled ≡ s.handled) × Given t o
    Prepared (raise x, t) = t.handled ≡ s.handled

    -- What the request has led to: no call of QGIS, or one with the project of the entry that the
    -- LRU table has for the location, under the path of that project.
    abbrev pub Called : Result Error (Unit {0}) × Session P → Type 0
    Called r =
        (r.1.handled ≡ s.handled)
        ⊎ ((d : Details P) × (Lru.peek r.1.cache.lru location ≡ some d)
            × (r.1.handled ≡ s.handled ++ some d.project ∷ [])
            × (r.1.config_path ≡ some (c.file_name d.project)))

    used :
        (d : Details P) (t : Session P) (r : Result Error (Option P) × Session P)
        → t.handled ≡ s.handled
        → Lru.peek t.cache.lru location ≡ some d
        → served r.1 ≡ served t
        → ((o : Option P) → r.0 ≡ ok o → Same d.project o)
        → Prepared r
    used d t (raise x, q) h k e v = ap (λ l. l.1) e ∙ h
    used d t (ok none, q) h k e v = (ap (λ l. l.1) e ∙ h, tt)
    used d t (ok (some p), q) h k e v =
        (ap (λ l. l.1) e ∙ h, (d, ap (λ l. Lru.peek l.0 location) e ∙ k, sym (v (some p) refl)))

    prepare-Prepared :
        (scheme request_id : Option String)
        → IsValid s.cache.lru
        → Prepared (prepare_project c scheme location request_id s)
    unfolding prepare_project
    prepare-Prepared scheme request_id h =
        elim (lookup-Found c.urls c.services location (always_refresh c) s.cache h) [
          | inl (x, a, e) ↦ rw e refl
          | inr (d, u, m, e, k, valid) ↦
              let t : Session P = record s { cache = m } in
              rw e (
                used d t (use_project c scheme location request_id (d.project, u) t) refl k
                  ((use_project-Keeps scheme location request_id (d.project, u)).at t)
                  ((use_project-Returns scheme location request_id d.project u).value t))
        ]

    refused :
        (x : Error) (t : Session P) (r : Result Error (Option P) × Session P)
        → t.handled ≡ s.handled
        → served r.1 ≡ served t
        → ((o : Option P) → r.0 ≡ ok o → o ≡ none)
        → Prepared r
    refused x t (raise y, q) h e v = ap (λ l. l.1) e ∙ h
    refused x t (ok o, q) h e v = rw (v o refl) (ap (λ l. l.1) e ∙ h, tt)

    rescued :
        (r : Result Error (Option P) × Session P)
        → Prepared r
        → Prepared (catch_result r (rescue c location))
    rescued (ok o, t) h = h
    rescued (raise x, t) h =
        refused x t (rescue c location x t) h ((rescue-Keeps location x).at t)
          ((rescue-Returns location x).value t)

    called :
        (r : Result Error (Option P) × Session P)
        → Prepared r
        → Called (bind_result r (serve_project c))
    unfolding serve_project call_qgis
    called (raise x, t) h = inl h
    called (ok none, t) h = inl h.0
    called (ok (some p), t) (h, (d, k, e)) = inr (d, k, rw (h, e) refl, rw e refl)

    -- With a valid LRU table a request for a project gives QGIS no project but the one that the table
    -- then has for its location, once, and under the path of that project; or it does not call QGIS.
    pub handle_qgis_request-Called :
        (scheme request_id : Option String)
        → IsValid s.cache.lru
        → Called (handle_qgis_request c scheme (some location) request_id s)
    unfolding handle_qgis_request
    handle_qgis_request-Called scheme request_id h =
        called (catch_result (prepare_project c scheme location request_id s) (rescue c location)) (
          rescued (prepare_project c scheme location request_id s)
            (prepare-Prepared scheme request_id h))
