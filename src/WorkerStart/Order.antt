-- ===== src/WorkerStart/Order.antt =====
-- In which order a worker starts, and in which environment.
use py_qgis_server.Prelude.{
  ℕ, ◌≤◌, ◌<◌, ◌≡◌, refl, ◌∙◌, ◌⊎◌, inr, String, false, Option, some, List, [], ◌∷◌, ◌++◌,
  string_eq, raise, true, inl, ==_self, ◌==◌,
}
use py_qgis_server.Prelude.Actions.{pure, throw}
use py_qgis_server.Prelude.Actions.Triples.{Leads, Leads-maybe, Leads-pure, Leads-throw}
use py_qgis_server.Dict.{get, put}
use py_qgis_server.Dict.Laws.{get-put}
use py_qgis_server.WorkerStart.{
  Class, Environ, Error, Event, Setup, Step, append_path, attach_observer, attempt,
  install_cleanup_hook, install_logger_hook, load_plugins, make_application, make_server, old_qgis,
  preload, record_event, register_management, set_environ, set_prefix_path, setup_proxy,
  show_settings, configure_apis, other_error,
}
use py_qgis_server.Components.Config.{Error as ConfigError, qgis_api_endpoints}

-- The environment that QGIS is to find when its application is made: its own project cache is off,
-- and where there is no display the platform is the offscreen one.
abbrev pub IsReady : Environ → Type 0
IsReady env =
    (get "QGIS_SERVER_PROJECT_CACHE_STRATEGY" env ≡ some "off")
    × (get "QGIS_NO_OVERRIDE_IMPORT" env ≡ some "1")
    × (get "QGIS_DISABLE_MESSAGE_HOOKS" env ≡ some "1")
    × ((get "QT_QPA_PLATFORM" env ≡ some "offscreen")
        ⊎ ((d : String) × (get "DISPLAY" env ≡ some d)))

pub data Phase : Type 0 where
  fresh made served plugged preloaded : Phase

-- The events that lead to a phase: the observer is attached before anything is loaded, the application
-- is made once, of a QGIS that is recent enough, in an environment that is ready, the server after it,
-- the plugins and the handlers of the management after the server, and the projects at last.
pub data Traced (version : ℕ) : List Event → Phase → Type 0 where
  nothing : Traced version [] fresh
  observed :
      {es : List Event}
      → Traced version es fresh
      → Traced version (es ++ attach_observer ∷ []) fresh
  found :
      {es : List Event} (path : String)
      → Traced version es fresh
      → Traced version (es ++ append_path path ∷ []) fresh
  application :
      {es : List Event} (env : Environ)
      → 32800 ≤ version
      → IsReady env
      → Traced version es fresh
      → Traced version (es ++ make_application env ∷ []) made
  located :
      {es : List Event} (path : String)
      → Traced version es made
      → Traced version (es ++ set_prefix_path path ∷ []) made
  hooked :
      {es : List Event}
      → Traced version es made
      → Traced version (es ++ install_cleanup_hook ∷ []) made
  shown :
      {es : List Event} → Traced version es made → Traced version (es ++ show_settings ∷ []) made
  logged :
      {es : List Event}
      → Traced version es made
      → Traced version (es ++ install_logger_hook ∷ []) made
  server :
      {es : List Event} → Traced version es made → Traced version (es ++ make_server ∷ []) served
  proxy :
      {es : List Event} → Traced version es served → Traced version (es ++ setup_proxy ∷ []) served
  plugins :
      {es : List Event}
      → Traced version es served
      → Traced version (es ++ load_plugins ∷ []) plugged
  managed :
      {es : List Event}
      → Traced version es plugged
      → Traced version (es ++ register_management ∷ []) plugged
  projects :
      {es : List Event} → Traced version es plugged → Traced version (es ++ preload ∷ []) preloaded

module _ (u : Setup) where
  -- What is true when an exception ends the start: the events so far are in order, the class is not
  -- marked as started, and QGIS is too old, or a step outside raised, or the parser raised for a
  -- value in the section of an API.
  abbrev pub Failed : Error → Class → Type 0
  Failed x s =
      (ph : Phase) × Traced u.qgis_version s.events ph
      × (s.qgis_server ≡ false)
      × (((x ≡ old_qgis) × (u.qgis_version < 32800))
          ⊎ (((t : Step) × (u.fails t ≡ some x))
              ⊎ ((x ≡ other_error)
                  × ((e : ConfigError) × (env : Environ) × ((configure_apis u
                          (qgis_api_endpoints false (λ name. true) u.endpoints) env).0
                        ≡ raise e)))))

  abbrev pub At : Phase → (Environ → Type 0) → Class → Type 0
  At ph F s = Traced u.qgis_version s.events ph × (s.qgis_server ≡ false) × F s.environ

  pub event-Leads :
      (e : Event) (ph next : Phase) (F : Environ → Type 0)
      → ((es : List Event)
          → Traced u.qgis_version es ph
          → Traced u.qgis_version (es ++ e ∷ []) next)
      → Leads (At ph F) (λ t. At next F) Failed (record_event e)
  unfolding record_event
  event-Leads e ph next F h = record { at = λ s (a, b, c). (h s.events a, b, c) }

  pub environ-Leads :
      (name v : String) (ph : Phase) (F G : Environ → Type 0)
      → ((env : Environ) → F env → G (put name v env))
      → Leads (At ph F) (λ t. At ph G) Failed (set_environ name v)
  unfolding set_environ
  environ-Leads name v ph F G h = record { at = λ s (a, b, c). (a, b, h s.environ c) }

  pub attempt-Leads :
      (t : Step) (ph : Phase) (F : Environ → Type 0)
      → Leads (At ph F) (λ x. At ph F) Failed (attempt u t)
  unfolding attempt
  attempt-Leads t ph F =
      Leads-maybe (u.fails t) (pure tt) throw (λ e. Leads-pure tt (λ s h. h))
        (λ x e. Leads-throw x (λ s (a, b, c). (ph, a, b, inr (inl (t, e)))))

pub put_other :
    (n k v : String) (o : Option String) (env : Environ)
    → (n == k) ≡ false
    → get k env ≡ o
    → get k (put n v env) ≡ o
put_other n k v o env e h = get-put n k v env ∙ rw e h

pub put_same : (n v : String) (env : Environ) → get n (put n v env) ≡ some v
put_same n v env = get-put n n v env ∙ rw (==_self n) refl
