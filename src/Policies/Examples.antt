-- ===== src/Policies/Examples.antt =====
-- Two policies: the first one rewrites the path, the second one forbids what it is rewritten to.
use py_qgis_server.Prelude.{
  String, none, some, List, [], ◌∷◌, ◌≡◌, refl, map, string_eq, ◌==◌, if◌then◌else◌,
}
use py_qgis_server.Prelude.Actions.{pure, throw}
use py_qgis_server.Policies.{
  Filter, Pattern, Policy, Request, application, error_handler, find_handler, http_error,
  load_access_policies, positional,
}
use py_qgis_server.Policies.Routes.{Routed, find_handler-Routed}

abbrev pattern_of : String → Pattern
pattern_of s = record {
  match_at = λ path. if path == s then some (positional []) else none;
  sub = λ repl path. repl;
}

abbrev rewrite_filter : Filter (Unit {0})
rewrite_filter = record { pattern = some (pattern_of "/a"); repl = some "/b"; fn = λ args. pure tt }

abbrev forbid_filter : Filter (Unit {0})
forbid_filter = record {
  pattern = some (pattern_of "/b");
  repl = none;
  fn = λ args. throw (http_error 403 none);
}

abbrev policies : List (Policy (Unit {0}))
policies =
    load_access_policies
      ((some forbid_filter ∷ [], 0) ∷ ((none ∷ (some rewrite_filter ∷ []), 10) ∷ []))

abbrev request : String → Request (Unit {0})
request path = record { path = path; rest = tt }

find_handler-Routed_example : Routed policies (request "/a") (find_handler policies (request "/a"))
find_handler-Routed_example = find_handler-Routed policies (request "/a")

find_handler_forbidden :
    find_handler policies (request "/a") ≡ (error_handler 403 none, request "/b")
unfolding find_handler load_access_policies
find_handler_forbidden = refl

find_handler_application : find_handler policies (request "/c") ≡ (application, request "/c")
unfolding find_handler load_access_policies
find_handler_application = refl

load_access_policies_order : map (λ p. p.pri) policies ≡ 10 ∷ (0 ∷ [])
unfolding load_access_policies
load_access_policies_order = refl
