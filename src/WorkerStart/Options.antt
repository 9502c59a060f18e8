-- ===== src/WorkerStart/Options.antt =====
-- The options, the cache and the APIs that a worker sets before QGIS is started.
use py_qgis_server.Prelude.{
  ◌≡◌, refl, ap, inr, Result, ok, raise, String, Bool, true, false, ◌||◌, some, string_eq, ◌==◌,
}
use py_qgis_server.Prelude.Actions.{modify, pure, when, ◌>>◌}
use py_qgis_server.Prelude.Actions.Triples.{
  Leads, Leads-bind, Leads-gets, Leads-maybe, Leads-modify, Leads-pure, Leads-then, Leads-when,
  Outcome,
}
use py_qgis_server.Components.Config.{Error as ConfigError, qgis_api_endpoints}
use py_qgis_server.Dict.{get, put}
use py_qgis_server.WorkerStart.{
  Class, Environ, on_environ, Setup, Starting, attach_observer, configure_apis, environ_or,
  get_environ, get_service, record_event, set_apis, set_cache, set_environ, set_options,
}
use py_qgis_server.WorkerStart.Order.{
  At, Failed, attempt-Leads, environ-Leads, event-Leads, fresh, observed, Phase, put_other,
  put_same,
}

abbrev pub IsAny : Environ → Type 0
IsAny env = Unit

abbrev pub IsOff : Environ → Type 0
IsOff env = get "QGIS_SERVER_PROJECT_CACHE_STRATEGY" env ≡ some "off"

abbrev pub HasFlags : Environ → Type 0
HasFlags env =
    IsOff env
    × (get "QGIS_NO_OVERRIDE_IMPORT" env ≡ some "1")
    × (get "QGIS_DISABLE_MESSAGE_HOOKS" env ≡ some "1")

module _ (u : Setup) where
  -- An action that keeps the phase and the facts, under a condition.
  pub when-Leads :
      (b : Bool) (m : Starting (Unit {0})) (ph : Phase) (F : Environ → Type 0)
      → Leads (At u ph F) (λ t. At u ph F) (Failed u) m
      → Leads (At u ph F) (λ t. At u ph F) (Failed u) (when b m)
  when-Leads b m ph F h = Leads-when b m (λ e. h) (λ e s a. a)

  option-Leads :
      (name v : String)
      → Leads (At u fresh IsAny) (λ t. At u fresh IsAny) (Failed u) (set_environ name v)
  option-Leads name v = environ-Leads u name v fresh IsAny IsAny (λ env h. tt)

  pub set_options-Leads :
      Leads (At u fresh IsAny) (λ t. At u fresh IsAny) (Failed u) (set_options u)
  unfolding set_options
  set_options-Leads =
      Leads-then _ _
        (when-Leads (u.debug_logs || u.qgis_info)
          (set_environ "QGIS_SERVER_LOG_LEVEL" "0" >> set_environ "QGIS_DEBUG" "1") fresh IsAny
          (Leads-then _ _ (option-Leads "QGIS_SERVER_LOG_LEVEL" "0")
            (option-Leads "QGIS_DEBUG" "1")))
        (Leads-then _ _
          (when-Leads u.trust_layer_metadata (set_environ "QGIS_SERVER_TRUST_LAYER_METADATA" "yes")
            fresh IsAny (option-Leads "QGIS_SERVER_TRUST_LAYER_METADATA" "yes"))
          (when-Leads u.disable_getprint (set_environ "QGIS_SERVER_DISABLE_GETPRINT" "yes") fresh
            IsAny (option-Leads "QGIS_SERVER_DISABLE_GETPRINT" "yes")))

  observe-Leads :
      Leads (At u fresh IsAny) (λ t. At u fresh IsAny) (Failed u) (record_event attach_observer)
  observe-Leads = event-Leads u attach_observer fresh fresh IsAny (λ es h. observed h)

  pub set_cache-Leads : Leads (At u fresh IsAny) (λ t. At u fresh IsAny) (Failed u) (set_cache u)
  unfolding set_cache
  set_cache-Leads = Leads-then _ _ (attempt-Leads u get_service fresh IsAny) (
      Leads-then
        (modify (λ s. record s {
          cache_service = true;
          cache_check_interval = u.check_interval;
          cache_last_check = u.now;
        }))
        _ (Leads-modify _ (λ s h. h))
        (Leads-then _ _
          (when-Leads u.advanced_report (modify (λ s. record s { advanced_report = true })) fresh
            IsAny (Leads-modify (λ s. record s { advanced_report = true }) (λ s h. h)))
          (when-Leads u.has_observers (record_event attach_observer) fresh IsAny observe-Leads)))

  pub after_put :
      (name v : String) (env : Environ)
      → (name == "QGIS_SERVER_PROJECT_CACHE_STRATEGY") ≡ false
      → IsOff env
      → IsOff (put name v env)
  after_put name v env e h =
      put_other name "QGIS_SERVER_PROJECT_CACHE_STRATEGY" v (some "off") env e h

  on_environ-Outcome :
      (s : Class) (r : Result ConfigError (Unit {0}) × Environ)
      → configure_apis u (qgis_api_endpoints false (λ name. true) u.endpoints) s.environ ≡ r
      → At u fresh IsAny s
      → Outcome (λ t. At u fresh IsAny) (Failed u) (on_environ r s)
  unfolding on_environ
  on_environ-Outcome s (ok t, env) e (a, b, c) = (a, b, tt)
  on_environ-Outcome s (raise x, env) e (a, b, c) =
      (fresh, a, b, inr (inr (refl, (x, s.environ, ap (λ r. r.0) e))))

  pub set_apis-Leads : Leads (At u fresh IsAny) (λ t. At u fresh IsOff) (Failed u) (set_apis u)
  unfolding set_apis
  set_apis-Leads =
      Leads-then _ _ (record { at = λ s h. on_environ-Outcome s _ refl h })
        (environ-Leads u "QGIS_SERVER_PROJECT_CACHE_STRATEGY" "off" fresh IsAny IsOff
          (λ env h. put_same "QGIS_SERVER_PROJECT_CACHE_STRATEGY" "off" env))

  -- Reading the environment keeps everything.
  pub environ_or-Leads :
      (name default : String) (ph : Phase) (F : Environ → Type 0)
      → Leads (At u ph F) (λ v. At u ph F) (Failed u) (environ_or name default)
  unfolding environ_or get_environ
  environ_or-Leads name default ph F =
      Leads-bind _ _ (Leads-gets (λ s. get name s.environ) (λ s h. h)) (λ o.
        Leads-maybe o (pure default) pure (λ e. Leads-pure default (λ s h. h))
          (λ v e. Leads-pure v (λ s h. h)))
