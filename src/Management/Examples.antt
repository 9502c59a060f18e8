-- ===== src/Management/Examples.antt =====
-- Requests to a handler that writes and then fails, and to one that finishes early.
use py_qgis_server.Prelude.{
  ℕ, String, true, false, Option, none, some, [], ◌∷◌, ◌≡◌, refl, ok, raise, nat_eq, ◌==◌,
  if◌then◌else◌,
}
use py_qgis_server.Management.{
  Chunk, Command, Error, Handler, Method, Program, clear, execute, finish_response,
  set_response_header, set_status_code, write_response,
}
use py_qgis_server.Cache.Samples.{config, manager, services}
use py_qgis_server.Management.Apis.{Texts, get_cache, get_plugins}
use py_qgis_server.Management.Pages.{get_cache_link}
use py_qgis_server.Plugins.{Registry}
use py_qgis_server.Management.Finishing.{execute-finishes}
use py_qgis_server.Management.Flags.{finishes}

abbrev texts : ℕ → String
texts n = if n == 404 then "Not Found" else "Unknown"

abbrev handler : Handler
handler = record { finished = false; reason = ""; calls = [] }

-- `get` writes a part and raises `HTTPError(404)`; `post` finishes, and then raises.
abbrev methods : Method → Option Program
methods Method.get = some (
    Program.seq (Program.run (Command.write_chunk (Chunk.text "a")))
      (Program.fail (Error.http_error 404 none)))
methods Method.post =
    some (Program.seq (Program.run (Command.finish_with none)) (Program.fail Error.other_error))
methods Method.head = none
methods Method.put = none
methods Method.patch = none
methods Method.delete = none
methods Method.other_method = none

execute-finishes_example :
    ((execute texts Program.skip methods Method.get handler).0 ≡ ok tt)
    × ((execute texts Program.skip methods Method.get handler).1.finished ≡ true)
    × (finishes (execute texts Program.skip methods Method.get handler).1.calls ≡ 1)
execute-finishes_example = execute-finishes texts Program.skip methods Method.get handler refl refl

execute_error :
    (execute texts Program.skip methods Method.get handler).1.calls
    ≡ set_status_code 200
      ∷ (set_response_header "Content-Type" "application/json;charset=utf-8"
          ∷ (write_response (Chunk.text "a")
              ∷ (clear
                  ∷ (set_status_code 404
                      ∷ (set_response_header "Content-Type" "application/json;charset=utf-8"
                          ∷ (write_response (Chunk.error_dict "error" 404 "Not Found")
                              ∷ (finish_response ∷ [])))))))
unfolding execute
execute_error = refl

execute_finished :
    (execute texts Program.skip methods Method.post handler).1.calls
    ≡ set_status_code 200 ∷ (finish_response ∷ [])
unfolding execute
execute_finished = refl

execute_missing : (execute texts Program.skip methods Method.put handler).1.reason ≡ "Unknown"
unfolding execute
execute_missing = refl

-- A plugin that failed, one without metadata, and the list of both.
abbrev registry : Registry String
registry = record {
  server_plugins = ("a", "a") ∷ [];
  failed_plugins = ("b", "trace") ∷ [];
  search_path = [];
}

abbrev texts_of : Texts String
texts_of = record {
  failed = λ name trace. trace;
  loaded = λ name m. m;
  links = λ l. elim l [ [] ↦ "" | (n, status) ∷ rest ↦ status ];
}

get_plugins_failed :
    (get_plugins texts_of (λ n. none) registry (some "b") handler).1.calls
    ≡ set_response_header "Content-Type" "application/json;charset=utf-8"
      ∷ (write_response (Chunk.dict "trace") ∷ [])
unfolding get_plugins
get_plugins_failed = refl

get_plugins_missing :
    (get_plugins texts_of (λ n. none) registry (some "a") handler).0
    ≡ raise (Error.http_error 404 none)
unfolding get_plugins
get_plugins_missing = refl

get_cache_link_path : get_cache_link (λ k. k) "http" "h" "/a" ≡ "http://h/cache/content/?MAP=/a"
unfolding get_cache_link
get_cache_link_path = refl

get_cache_unspecified :
    (get_cache config services (λ k p. p) none none (handler, manager)).0
    ≡ raise (Error.http_error 400 (some "Missing project specification"))
unfolding get_cache
get_cache_unspecified = refl
