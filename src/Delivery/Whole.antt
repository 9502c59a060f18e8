-- ===== src/Delivery/Whole.antt =====
-- The frames of one answer, and the response that they become.
use mathlib.Core.List.{append_assoc, append-nil, map-append}
use py_qgis_server.Prelude.{
  ◌≡◌, refl, sym, ap, ◌∙◌, Bool, true, false, Bytes, Option, List, [], ◌∷◌, ◌++◌,
}
use py_qgis_server.Client
use py_qgis_server.Client.{Message}
use py_qgis_server.Delivery.{framed}
use py_qgis_server.Delivery.Objects.{object}
use py_qgis_server.Messages.{Content, Headers, Metadata, chunk, reply}
use py_qgis_server.Stream.{messages, receive_all, received}
use py_qgis_server.Stream.Chunked.{
  listening, messages-chunked, more_chunks, receive-chunked, with_more,
}

module _ (c : Bytes) (meta : Option Metadata) (hs : Headers) where
  object-chunks :
      (b : Content) (bs : List Content) (cs : List (Content × Bool)) (rest : List Message)
      → object (listening hs meta b cs) (framed c (more_chunks meta bs) ++ rest)
        ≡ object (listening hs meta b (cs ++ with_more bs)) rest
  unfolding object Client.deliver Client.is_done
  object-chunks b [] cs rest = rw append-nil
  object-chunks b (d ∷ bs) cs rest =
      object-chunks b bs (cs ++ (d, true) ∷ []) rest
      ∙ ap (λ l. object (listening hs meta b l) rest)
          (append_assoc cs ((d, true) ∷ []) (with_more bs))

  object-chunked :
      (b : Content) (bs : List Content)
      → object Client.init
          (framed c (reply 206 hs b meta ∷ (more_chunks meta bs ++ chunk [] false meta ∷ [])))
        ≡ record (listening hs meta b (with_more bs ++ ([], false) ∷ [])) { has_more = false }
  unfolding object Client.deliver Client.is_done
  object-chunked b bs =
      rw
        (map-append {B = Message} (λ p. record { correlation_id = c; payload = p; rest = [] })
          (more_chunks meta bs) (chunk [] false meta ∷ []))
        (object-chunks b bs [] (framed c (chunk [] false meta ∷ [])))

  -- The messages of an answer make of the object what they make of it when they are all read.
  pub object-messages :
      (message : Content) (parts : List Content) (last : Content)
      → object Client.init (framed c (messages message meta 200 hs parts last))
        ≡ received message meta 200 hs parts last
  unfolding messages receive_all object Client.deliver Client.is_done
  object-messages message [] [] = refl
  object-messages message [] (x ∷ last) = refl
  object-messages message (b ∷ bs) last =
      rw (messages-chunked message meta hs b bs last)
        (object-chunked b (bs ++ last ∷ []) ∙ sym (receive-chunked hs meta b (bs ++ last ∷ [])))
