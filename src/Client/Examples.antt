-- ===== src/Client/Examples.antt =====
-- The client's table on small inputs.
use py_qgis_server.Prelude.{◌≡◌, refl, false, none, List, [], ◌∷◌, string_eq}
use py_qgis_server.Dict
use py_qgis_server.Messages.{reply, chunk, raw}
use py_qgis_server.Client.{Handlers, Message, init, poll}
use py_qgis_server.Client.Isolation.{tracks, own, get-poll}

abbrev waiting : Handlers
waiting = ("a", init) ∷ ("b", init) ∷ []

abbrev mixed : List Message
mixed =
    record { correlation_id = "a"; payload = reply 206 [] (1 ∷ []) none; rest = [] }
    ∷ record { correlation_id = "b"; payload = raw "ERR"; rest = raw "509" ∷ [] }
    ∷ record { correlation_id = "c"; payload = raw "?"; rest = [] }
    ∷ record { correlation_id = "a"; payload = chunk (2 ∷ []) false none; rest = [] }
    ∷ []

-- Both requests are done, and the loop ends with an empty table.
both_done : poll mixed waiting ≡ ([], [])
unfolding poll
both_done = refl

get-poll_example :
    Dict.get "a" (poll mixed waiting).1 ≡ tracks (Dict.get "a" waiting) (own "a" mixed)
get-poll_example = get-poll "a" mixed waiting
