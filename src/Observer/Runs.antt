-- ===== src/Observer/Runs.antt =====
-- What the observers are told over the life of the server, and who is told of them.
use py_qgis_server.Prelude.{
  String, ◌≡◌, refl, sym, ap, ◌∙◌, Bool, true, false, ◌||◌, some, List, [], ◌∷◌, ◌++◌, inl, inr,
  Result-cases, string_eq, if◌then◌else◌, Result, ok, raise,
}
use py_qgis_server.Prelude.Actions.{bind_result, pure}
use py_qgis_server.Components.Config.{Config, find_option, set}
use py_qgis_server.Dict
use py_qgis_server.Dict.{Dict, get, put}
use py_qgis_server.Observer.{Server, Update, receive, receive_all}
use py_qgis_server.Observer.Keys.{time_of, ascents, calls_of, calls_of-receive_all, updates_of}
use py_qgis_server.Observer.Life.{
  Declared, Loading, Received, cancelled, declare_observers, declared_names, exception, init,
  is_any, load_observers, message, run_async, socket_error,
}
use py_qgis_server.Settings.Lookup.{set-find_option}
use py_qgis_server.Text.{Text}

-- The messages that come before the server is stopped or its task ends.
abbrev pub taken : List (Bool × Received) → List Update
taken [] = []
taken ((true, r) ∷ rest) = []
taken ((false, message pid u) ∷ rest) = u ∷ taken rest
taken ((false, socket_error) ∷ rest) = taken rest
taken ((false, cancelled) ∷ rest) = []
taken ((false, exception) ∷ rest) = []

run_async-receive_all :
    (rs : List (Bool × Received)) (s : Server) → (run_async rs s).1 ≡ receive_all (taken rs) s
unfolding run_async receive_all
run_async-receive_all [] s = refl
run_async-receive_all ((true, r) ∷ rest) s = refl
run_async-receive_all ((false, message pid u) ∷ rest) s = run_async-receive_all rest (receive u s)
run_async-receive_all ((false, socket_error) ∷ rest) s = run_async-receive_all rest s
run_async-receive_all ((false, cancelled) ∷ rest) s = refl
run_async-receive_all ((false, exception) ∷ rest) s = refl

-- Over the whole life of the server, with errors of its socket, a stop, a cancellation or another
-- exception at any time, the calls of the observers about one project are, after those made before, one
-- of each observer for each message about it that comes before the end and is the first one or newer
-- than the one just before it.
pub calls_of-run_async :
    (k : String) (rs : List (Bool × Received)) (s : Server)
    → calls_of k (run_async rs s).1.calls
      ≡ calls_of k s.calls
        ++ ascents s.observers (time_of (Dict.get k s.last_updates)) (updates_of k (taken rs))
calls_of-run_async k rs s =
    ap (λ t. calls_of k t.calls) (run_async-receive_all rs s) ∙ calls_of-receive_all k (taken rs) s

set_there :
    (section option v : String) (c : Config) (options : Dict String String)
    → get section c ≡ some options
    → set section option v c ≡ (ok tt, put section (put option v options) c)
unfolding set
set_there section option v c options h = rw (set, h) refl

-- Whether the socket is bound.
abbrev bound_of : Bool → Result (Unit {0}) (Bool × Server) → Bool
bound_of b (ok p) = p.0
bound_of b (raise x) = b

bound_of-init :
    (load : Text → Loading) (name_of : Text → String) (d : Declared)
    → bound_of d.is_enabled (init load name_of d) ≡ d.is_enabled
unfolding init
bound_of-init load name_of d = elim (Result-cases (load_observers load d.names)) [
  | inl (x, e) ↦ rw (init, e) refl
  | inr (names, e) ↦ rw (init, e) refl
]

-- The workers are told to attach to the observer exactly if its server binds its socket: after
-- `declare_observers`, in a configuration that has the section of the cache, the option is `yes` if the
-- server that is then made is bound, and `no` if not, whatever was declared before and whichever
-- observers are found.
pub declare_observers-init :
    (observers : Text) (managed : Bool) (before : Declared) (c : Config)
    (options : Dict String String) (load : Text → Loading) (name_of : Text → String)
    → get "projects.cache" c ≡ some options
    → (d : Declared) × (c' : Config) × (declare_observers observers managed before c ≡ (ok d, c'))
      × ((bound : Bool) (s : Server)
          → init load name_of d ≡ ok (bound, s)
          → find_option "projects.cache" "has_observers" c' ≡ some (if bound then "yes" else "no"))
unfolding declare_observers
declare_observers-init observers managed before c options load name_of there =
    let enabled = is_any (declared_names observers) || managed || before.is_enabled in
    let d : Declared = record { names = declared_names observers; is_enabled = enabled } in
    let c' : Config =
      put "projects.cache" (put "has_observers" (if enabled then "yes" else "no") options) c in
    let e : set "projects.cache" "has_observers" (if enabled then "yes" else "no") c ≡ (ok tt, c') =
      set_there "projects.cache" "has_observers" (if enabled then "yes" else "no") c options
        there in
    (
      d,
      c',
      ap (λ r. bind_result r (λ t. pure d)) e,
      λ bound s h.
          set-find_option "projects.cache" "has_observers" "projects.cache" "has_observers"
            (if enabled then "yes" else "no") options c there
          ∙ ap (λ b. some (if b then "yes" else "no"))
              (sym (bound_of-init load name_of d) ∙ ap (bound_of enabled) h),
    )
