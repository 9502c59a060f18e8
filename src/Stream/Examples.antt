-- ===== src/Stream/Examples.antt =====
-- Answers on small inputs.
use py_qgis_server.Prelude.{
  ◌≡◌, refl, true, false, not, if◌then◌else◌, none, some, List, [], ◌∷◌, ◌++◌, arith,
}
use py_qgis_server.Messages.{Content, reply, chunk}
use py_qgis_server.Client.{is_done, fetch_more}
use py_qgis_server.Stream.{null, concat, messages, received, delivered}
use py_qgis_server.Stream.Chunked.{stream_roundtrip}
use py_qgis_server.Stream.Losses.{stream_truncated, stream_unfinished}

three_messages :
    messages [] none 200 [] ((1 ∷ 2 ∷ []) ∷ []) (3 ∷ [])
    ≡ reply 206 [] (1 ∷ 2 ∷ []) none ∷ chunk (3 ∷ []) true none ∷ chunk [] false none ∷ []
unfolding messages
three_messages = refl

abbrev parts : List Content
parts = (1 ∷ 2 ∷ []) ∷ [] ∷ (3 ∷ []) ∷ []

stream_roundtrip_example :
    (delivered (received [] none 200 [] parts (4 ∷ [])) ≡ concat parts ++ 4 ∷ [])
    × (is_done (received [] none 200 [] parts (4 ∷ [])) ≡ true)
    × ((received [] none 200 [] parts (4 ∷ [])).status ≡ some (if null parts then 200 else 206))
    × ((fetch_more (received [] none 200 [] parts (4 ∷ [])).chunks).1 ≡ not (null parts))
stream_roundtrip_example = stream_roundtrip [] none [] parts (4 ∷ [])

stream_truncated_example :
    (delivered (received [] none 404 [] parts (4 ∷ [])) ≡ 1 ∷ 2 ∷ [])
    × (is_done (received [] none 404 [] parts (4 ∷ [])) ≡ true)
    × ((received [] none 404 [] parts (4 ∷ [])).status ≡ some 404)
stream_truncated_example =
    stream_truncated [] none 404 [] (1 ∷ 2 ∷ []) ([] ∷ (3 ∷ []) ∷ []) (4 ∷ []) (omega arith)
      (omega arith)

stream_unfinished_example :
    (is_done (received [] none 206 [] [] (4 ∷ [])) ≡ false)
    × ((received [] none 206 [] [] (4 ∷ [])).chunks ≡ [])
stream_unfinished_example = stream_unfinished [] none [] (4 ∷ [])
