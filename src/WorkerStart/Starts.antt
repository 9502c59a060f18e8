-- ===== src/WorkerStart/Starts.antt =====
-- The whole start of a worker.
use mathlib.Core.Path.{subst}
use py_qgis_server.Prelude.{ok, ◌≡◌, refl, sym, true, false, ◌||◌, [], string_eq}
use py_qgis_server.Prelude.Actions.{modify, ◌>>◌}
use py_qgis_server.Prelude.Actions.Triples.{
  Leads, Leads-after, Leads-bind, Leads-gets, Leads-modify, Leads-then, Outcome,
}
use py_qgis_server.Dict.{get}
use py_qgis_server.WorkerStart.{
  Class, Setup, attempt, finish_start, get_environ, init_qgis_server, init_server, load_plugins,
  preload, preload_all, record_event, register_management, set_apis, set_cache, set_options,
  start_management, start_plugins,
}
use py_qgis_server.WorkerStart.Order.{
  nothing, At, Failed, Traced, attempt-Leads, event-Leads, fresh, managed, plugged, plugins,
  preloaded, projects, served,
}
use py_qgis_server.WorkerStart.Options.{
  IsAny, when-Leads, set_options-Leads, set_cache-Leads, set_apis-Leads,
}
use py_qgis_server.WorkerStart.Application.{init_qgis_server-Leads}

module _ (u : Setup) where
  -- What is true when the start has come to its end.
  abbrev pub Started : Class → Type 0
  Started s = Traced u.qgis_version s.events preloaded × (s.qgis_server ≡ true)

  finish_start-Leads : Leads (At u served IsAny) (λ t. Started) (Failed u) (finish_start u)
  unfolding finish_start get_environ
  finish_start-Leads = Leads-then _ _ (attempt-Leads u start_plugins served IsAny) (
      Leads-then _ _ (event-Leads u load_plugins served plugged IsAny (λ es h. plugins h)) (
        Leads-then _ _
          (when-Leads u u.management
            (attempt u start_management >> record_event register_management) plugged IsAny
            (Leads-then _ _ (attempt-Leads u start_management plugged IsAny)
              (event-Leads u register_management plugged plugged IsAny (λ es h. managed h))))
          (Leads-bind {Q = λ o. At u plugged IsAny} _ _
            (Leads-gets (λ s. get "QGIS_PROJECT_FILE" s.environ) (λ s h. h))
            (λ location.
              Leads-then (modify (λ s. record s { default_project_location = location })) _
                (Leads-modify (λ s. record s { default_project_location = location }) (λ s h. h))
                (Leads-then _ _ (attempt-Leads u preload_all plugged IsAny) (
                  Leads-then _ _
                    (event-Leads u preload plugged preloaded IsAny (λ es h. projects h))
                    (Leads-modify (λ s. record s { qgis_server = true }) (λ s h. (h.0, refl)))))))))

  init_server_first :
      (s : Class)
      → s.qgis_server ≡ false
      → init_server u s
        ≡ (set_options u
              >> (set_cache u
                  >> (set_apis u
                      >> (init_qgis_server u (u.debug_logs || u.qgis_info) >> finish_start u))))
            s
  unfolding init_server
  init_server_first s h = rw h refl

  init_server_again : (s : Class) → s.qgis_server ≡ true → init_server u s ≡ (ok tt, s)
  unfolding init_server
  init_server_again s h = rw h refl

  -- The start of a worker whose class has not been started ends in one of two ways. It returns, the
  -- events have been those of a whole start, and another start does nothing. Or it raises, because QGIS
  -- is too old, because a step outside raised, or because the parser raised for a value of an API, the events so far are in order, and the class is not
  -- marked as started. Events are in order if the observer is attached before anything is loaded, the
  -- application of a recent QGIS is made once, then the server, then plugins and the handlers of the
  -- management are loaded, and the projects at last; and if the application finds the project cache of
  -- QGIS switched off and the offscreen platform wherever there is no display, whatever the
  -- configuration of the APIs puts in the environment.
  pub init_server-Outcome :
      (s : Class)
      → s.events ≡ []
      → s.qgis_server ≡ false
      → Outcome (λ t d. Started d × (init_server u d ≡ (ok tt, d))) (Failed u) (init_server u s)
  init_server-Outcome s h k =
      rw (init_server_first s k)
        (whole.at s (subst (λ es. Traced u.qgis_version es fresh) (sym h) nothing, k, tt))
    where
      whole :
          Leads
            (At u fresh IsAny)
            (λ t d. Started d × (init_server u d ≡ (ok tt, d)))
            (Failed u)
            (set_options u
              >> (set_cache u
                  >> (set_apis u
                      >> (init_qgis_server u (u.debug_logs || u.qgis_info) >> finish_start u))))
      whole = Leads-then _ _ (set_options-Leads u) (
          Leads-then _ _ (set_cache-Leads u) (
            Leads-then _ _ (set_apis-Leads u) (
              Leads-then _ _ (init_qgis_server-Leads u (u.debug_logs || u.qgis_info)) (
                Leads-after (Failed u) _ finish_start-Leads
                  (λ t d e. (e, init_server_again d e.1))))))
