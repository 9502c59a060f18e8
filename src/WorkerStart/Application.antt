-- ===== src/WorkerStart/Application.antt =====
-- The start of the application and of the server of QGIS.
use mathlib.Core.Path.{subst}
use py_qgis_server.Prelude.{
  ◌≤◌, ◌≡◌, refl, ◌∙◌, inl, inr, String, Bool, true, false, Option, some, List, [], ◌∷◌, ◌++◌,
  string_eq, ltb, arith,
}
use py_qgis_server.Prelude.Actions.{pure, throw, when}
use py_qgis_server.Prelude.Actions.Triples.{
  Leads, Leads-bind, Leads-gets, Leads-maybe, Leads-pure, Leads-then, Leads-throw, Leads-when,
}
use py_qgis_server.Dict.{get, put}
use py_qgis_server.WorkerStart.{
  Environ, Event, Setup, append_path, check_version, choose_platform, create_application,
  environ_or, get_environ, init_qgis_server, install_cleanup_hook, install_logger_hook,
  init_processing, make_application, make_server, make_the_application, make_the_server, old_qgis,
  record_event, set_environ, set_prefix_path, setup_proxy, show_settings, start_qgis_application,
}
use py_qgis_server.WorkerStart.Order.{
  At, Failed, IsReady, Traced, application, attempt-Leads, environ-Leads, event-Leads, found, fresh,
  hooked, located, logged, made, proxy, put_other, put_same, served, server, shown,
}
use py_qgis_server.WorkerStart.Options.{
  IsAny, IsOff, HasFlags, when-Leads, after_put, environ_or-Leads,
}

module _ (u : Setup) where
  -- The facts about the environment, and a QGIS that is recent enough.
  abbrev IsRecent : (Environ → Type 0) → Environ → Type 0
  IsRecent F env = F env × (32800 ≤ u.qgis_version)

  version-Leads :
      Leads
        (At u fresh HasFlags)
        (λ t. At u fresh (IsRecent HasFlags))
        (Failed u)
        (when (ltb u.qgis_version 32800) (throw old_qgis))
  version-Leads =
      Leads-when (ltb u.qgis_version 32800) (throw old_qgis)
        (λ e. Leads-throw old_qgis (λ s (a, b, c). (fresh, a, b, inl (refl, ground arith))))
        (λ e s (a, b, c). (a, b, (c, ground arith)))

  check_version-Leads :
      Leads (At u fresh IsOff) (λ t. At u fresh (IsRecent HasFlags)) (Failed u) (check_version u)
  unfolding check_version
  check_version-Leads =
      Leads-then _ _
        (environ-Leads u "QGIS_NO_OVERRIDE_IMPORT" "1" fresh IsOff
          (λ env. IsOff env × (get "QGIS_NO_OVERRIDE_IMPORT" env ≡ some "1"))
          (λ env h. (
            after_put u "QGIS_NO_OVERRIDE_IMPORT" "1" env refl h,
            put_same "QGIS_NO_OVERRIDE_IMPORT" "1" env,
          )))
        (Leads-then _ _
          (environ-Leads u "QGIS_DISABLE_MESSAGE_HOOKS" "1" fresh
            (λ env. IsOff env × (get "QGIS_NO_OVERRIDE_IMPORT" env ≡ some "1")) HasFlags
            (λ env h. (
              after_put u "QGIS_DISABLE_MESSAGE_HOOKS" "1" env refl h.0,
              put_other "QGIS_DISABLE_MESSAGE_HOOKS" "QGIS_NO_OVERRIDE_IMPORT" "1" (some "1") env
                  refl h.1,
              put_same "QGIS_DISABLE_MESSAGE_HOOKS" "1" env,
            )))
          (Leads-bind (environ_or "QGIS3_PLUGINPATH" "/usr/share/qgis/python/plugins/") _
            (environ_or-Leads u "QGIS3_PLUGINPATH" "/usr/share/qgis/python/plugins/" fresh HasFlags)
            (λ path.
              Leads-then _ _
                (event-Leads u (append_path path) fresh fresh HasFlags (λ es h. found path h))
                version-Leads)))

  offscreen-Leads :
      (o : Option String)
      → Leads
          (λ s. At u fresh (IsRecent HasFlags) s × (get "DISPLAY" s.environ ≡ o))
          (λ t. At u fresh (IsRecent IsReady))
          (Failed u)
          (set_environ "QT_QPA_PLATFORM" "offscreen")
  unfolding set_environ
  offscreen-Leads o = record {
    at = λ s ((a, b, ((c, d, e), v)), g). (
      a,
      b,
      (
        (
          put_other "QT_QPA_PLATFORM" _ "offscreen" _ s.environ refl c,
          put_other "QT_QPA_PLATFORM" _ "offscreen" _ s.environ refl d,
          put_other "QT_QPA_PLATFORM" _ "offscreen" _ s.environ refl e,
          inl (put_same "QT_QPA_PLATFORM" "offscreen" s.environ),
        ),
        v,
      ),
    );
  }

  platform-Leads :
      Leads
        (At u fresh (IsRecent HasFlags))
        (λ t. At u fresh (IsRecent IsReady))
        (Failed u)
        (choose_platform u)
  unfolding choose_platform get_environ
  platform-Leads =
      Leads-bind {Q = λ o s. At u fresh (IsRecent HasFlags) s × (get "DISPLAY" s.environ ≡ o)} _ _
        (Leads-gets (λ s. get "DISPLAY" s.environ) (λ s h. (h, refl)))
        (λ o.
          Leads-maybe o (set_environ "QT_QPA_PLATFORM" "offscreen") (λ d. pure tt)
            (λ e. offscreen-Leads o)
            (λ d e.
              Leads-pure tt
                (λ s (h, g). (h.0, h.1, ((h.2.0.0, h.2.0.1, h.2.0.2, inr (d, g ∙ e)), h.2.1)))))

  prefix_kept :
      (prefix : String) (env : Environ) → IsReady env → IsReady (put "QGIS_PREFIX_PATH" prefix env)
  prefix_kept prefix env (a, b, c, inl d) = (
    put_other "QGIS_PREFIX_PATH" _ prefix _ env refl a,
    put_other "QGIS_PREFIX_PATH" _ prefix _ env refl b,
    put_other "QGIS_PREFIX_PATH" _ prefix _ env refl c,
    inl (put_other "QGIS_PREFIX_PATH" _ prefix _ env refl d),
  )
  prefix_kept prefix env (a, b, c, inr (x, d)) = (
    put_other "QGIS_PREFIX_PATH" _ prefix _ env refl a,
    put_other "QGIS_PREFIX_PATH" _ prefix _ env refl b,
    put_other "QGIS_PREFIX_PATH" _ prefix _ env refl c,
    inr (x, put_other "QGIS_PREFIX_PATH" _ prefix _ env refl d),
  )

  make-Leads :
      (env : Environ)
      → Leads
          (λ s. At u fresh (IsRecent IsReady) s × (s.environ ≡ env))
          (λ t. At u made IsAny)
          (Failed u)
          (record_event (make_application env))
  unfolding record_event
  make-Leads env = record {
    at = λ s ((a, b, c), e). (application env c.1 (subst IsReady e c.0) a, b, tt);
  }

  create_application-Leads :
      Leads (At u fresh (IsRecent IsReady)) (λ t. At u made IsAny) (Failed u) (create_application u)
  unfolding create_application
  create_application-Leads =
      Leads-bind (environ_or "QGIS3_HOME" "/usr") _
        (environ_or-Leads u "QGIS3_HOME" "/usr" fresh (IsRecent IsReady))
        (λ prefix.
          Leads-then _ _
            (environ-Leads u "QGIS_PREFIX_PATH" prefix fresh (IsRecent IsReady) (IsRecent IsReady)
              (λ env h. (prefix_kept prefix env h.0, h.1)))
            (Leads-then _ _ (attempt-Leads u make_the_application fresh (IsRecent IsReady)) (
              Leads-bind {Q = λ env s. At u fresh (IsRecent IsReady) s × (s.environ ≡ env)} _ _
                (Leads-gets (λ s. s.environ) (λ s h. (h, refl)))
                (λ env. Leads-then _ _ (make-Leads env) (
                  event-Leads u (set_prefix_path prefix) made made IsAny
                    (λ es h. located prefix h))))))

  hook-Leads :
      (e : Event)
      → ((es : List Event)
          → Traced u.qgis_version es made
          → Traced u.qgis_version (es ++ e ∷ []) made)
      → Leads (At u made IsAny) (λ t. At u made IsAny) (Failed u) (record_event e)
  hook-Leads e h = event-Leads u e made made IsAny h

  start_qgis-Leads :
      (verbose cleanup : Bool)
      → Leads
          (At u fresh IsOff)
          (λ t. At u made IsAny)
          (Failed u)
          (start_qgis_application u false verbose cleanup)
  unfolding start_qgis_application
  start_qgis-Leads verbose cleanup = Leads-then _ _ check_version-Leads (
      Leads-then _ _ platform-Leads (
        Leads-then _ _ create_application-Leads (
          Leads-then _ _
            (when-Leads u cleanup (record_event install_cleanup_hook) made IsAny
              (hook-Leads install_cleanup_hook (λ es h. hooked h)))
            (Leads-then _ _
              (when-Leads u verbose (record_event show_settings) made IsAny
                (hook-Leads show_settings (λ es h. shown h)))
              (Leads-then _ _ (hook-Leads install_logger_hook (λ es h. logged h)) (
                Leads-when false (record_event init_processing) (λ e. absurd (cc))
                  (λ e s h. h)))))))

  pub init_qgis_server-Leads :
      (verbose : Bool)
      → Leads (At u fresh IsOff) (λ t. At u served IsAny) (Failed u) (init_qgis_server u verbose)
  unfolding init_qgis_server
  init_qgis_server-Leads verbose = Leads-then _ _ (start_qgis-Leads verbose true) (
      Leads-then _ _ (attempt-Leads u make_the_server made IsAny) (
        Leads-then _ _ (event-Leads u make_server made served IsAny (λ es h. server h))
          (event-Leads u setup_proxy served served IsAny (λ es h. proxy h))))
