-- ===== src/Runtime/Examples.antt =====
-- Servers that fail while they start.
use py_qgis_server.Prelude.{true, none, some, Option, [], ◌∷◌, ◌≡◌, refl}
use py_qgis_server.Runtime.{
  Step, Stop, application, bind_sockets, broker, cache_observer, exception, http_server,
  keyboard_interrupt, management, run_server, serve, worker_pool,
}

abbrev port_in_use : Step → Option Stop
port_in_use bind_sockets = some exception
port_in_use _ = none

run_server_port : run_server port_in_use 2 true ≡ (1, worker_pool ∷ (broker ∷ []))
unfolding run_server
run_server_port = refl

abbrev interrupted : Step → Option Stop
interrupted serve = some keyboard_interrupt
interrupted _ = none

run_server_by_keyboard : run_server interrupted 2 true ≡ (
  15,
  http_server ∷ (management ∷ (application ∷ (cache_observer ∷ (worker_pool ∷ (broker ∷ []))))),
)
unfolding run_server
run_server_by_keyboard = refl
