-- ===== src/Stream/Chunked.antt =====
-- The chunked transfer is faithful.
use mathlib.Core.List.{append_assoc, append-nil, map-append}
use py_qgis_server.Prelude.{
  ◌≡◌, refl, sym, ap, ◌∙◌, Bool, true, false, not, Option, some, List, [], ◌∷◌, ◌++◌, map, ok,
  if◌then◌else◌,
}
use py_qgis_server.Prelude.Actions.{bind_result, ◌>>◌}
use py_qgis_server.Messages.{Content, Headers, Metadata, Payload, reply, chunk}
use py_qgis_server.Response
use py_qgis_server.Response.{Response, Method, write, flush, finish}
use py_qgis_server.Client
use py_qgis_server.Client.{set_result, fetch_more, is_done}
use py_qgis_server.Stream.{
  up, concat, flush_parts, answer, prepared, null, messages, receive_all, received, delivered,
}

-- The response once the header is out and more is to come.
abbrev streaming : Headers → List Payload → Response
streaming hs sent =
    Response.init (record { headers = hs; status_code = 206; header_written = true; sent = sent })

abbrev pub more_chunks : Option Metadata → List Content → List Payload
more_chunks meta = map (λ b. chunk b true meta)

module _ (message : Content) (meta : Option Metadata) (hs : Headers) where
  first_flush :
      (b : Content)
      → (do write b; flush message up meta) (prepared 200 hs)
        ≡ (ok tt, streaming hs (reply 206 hs b meta ∷ []))
  unfolding write flush
  first_flush [] = refl
  first_flush (x ∷ b) = refl

  later_flush :
      (b : Content) (sent : List Payload)
      → (do write b; flush message up meta) (streaming hs sent)
        ≡ (ok tt, streaming hs (sent ++ chunk b true meta ∷ []))
  unfolding write flush
  later_flush [] sent = refl
  later_flush (x ∷ b) sent = refl

  later_parts :
      (bs : List Content) (sent : List Payload)
      → flush_parts message up meta bs (streaming hs sent)
        ≡ (ok tt, streaming hs (sent ++ more_chunks meta bs))
  unfolding flush_parts
  later_parts [] sent = rw append-nil
  later_parts (b ∷ bs) sent =
      ap (λ r. bind_result r (λ _. flush_parts message up meta bs)) (later_flush b sent)
      ∙ later_parts bs (sent ++ chunk b true meta ∷ [])
      ∙ ap (λ l. (ok tt, streaming hs l))
          (append_assoc sent (chunk b true meta ∷ []) (more_chunks meta bs))

  last_part :
      (b : Content) (sent : List Payload)
      → ((do write b; finish message up meta) (streaming hs sent)).1.handler.sent
        ≡ (sent ++ chunk b true meta ∷ []) ++ chunk [] false meta ∷ []
  unfolding write finish
  last_part [] sent = refl
  last_part (x ∷ b) sent = refl

  flush_all :
      (b : Content) (bs : List Content)
      → flush_parts message up meta (b ∷ bs) (prepared 200 hs)
        ≡ (ok tt, streaming hs (reply 206 hs b meta ∷ more_chunks meta bs))
  unfolding flush_parts
  flush_all b bs =
      ap (λ r. bind_result r (λ _. flush_parts message up meta bs)) (first_flush b)
      ∙ later_parts bs (reply 206 hs b meta ∷ [])

  -- The messages of an answer in several parts: a header of status 206 with the first part, then a
  -- chunk for each later part, then the empty chunk that ends the transfer.
  pub messages-chunked :
      (b : Content) (bs : List Content) (last : Content)
      → messages message meta 200 hs (b ∷ bs) last
        ≡ reply 206 hs b meta ∷ (more_chunks meta (bs ++ last ∷ []) ++ chunk [] false meta ∷ [])
  unfolding messages answer
  messages-chunked b bs last =
      ap (λ r. (bind_result r (λ _. (do write last; finish message up meta))).1.handler.sent)
        (flush_all b bs)
      ∙ last_part last (reply 206 hs b meta ∷ more_chunks meta bs)
      ∙ ap (λ l. reply 206 hs b meta ∷ (l ++ chunk [] false meta ∷ []))
          (sym (map-append (λ b'. chunk b' true meta) bs (last ∷ [])))

-- The client's handler while chunks come in.
abbrev pub listening : Headers → Option Metadata → Content → List (Content × Bool) → Client.Handler
listening hs meta b cs = record {
  future = Client.done;
  chunks = cs;
  has_more = true;
  headers = hs;
  body = some b;
  metadata = meta;
  status = some 206;
}

abbrev pub with_more : List Content → List (Content × Bool)
with_more = map (λ b. (b, true))

module _ (hs : Headers) (meta : Option Metadata) (b : Content) where
  receive-chunks :
      (bs : List Content) (cs : List (Content × Bool)) (rest : List Payload)
      → receive_all (more_chunks meta bs ++ rest) (listening hs meta b cs)
        ≡ receive_all rest (listening hs meta b (cs ++ with_more bs))
  unfolding receive_all
  receive-chunks [] cs rest = rw append-nil
  receive-chunks (d ∷ bs) cs rest =
      receive-chunks bs (cs ++ (d, true) ∷ []) rest
      ∙ ap (λ l. receive_all rest (listening hs meta b l))
          (append_assoc cs ((d, true) ∷ []) (with_more bs))

  pub receive-chunked :
      (bs : List Content)
      → receive_all
          (reply 206 hs b meta ∷ (more_chunks meta bs ++ chunk [] false meta ∷ []))
          Client.init
        ≡ record (listening hs meta b (with_more bs ++ ([], false) ∷ [])) { has_more = false }
  unfolding receive_all
  receive-chunked bs = receive-chunks bs [] (chunk [] false meta ∷ [])

pub fetch_more-ended :
    (bs : List Content) → fetch_more (with_more bs ++ ([], false) ∷ []) ≡ (bs, true)
unfolding fetch_more
fetch_more-ended [] = refl
fetch_more-ended (b ∷ bs) = rw (fetch_more-ended bs)

pub concat-snoc : (bs : List Content) (b : Content) → concat (bs ++ b ∷ []) ≡ concat bs ++ b
concat-snoc [] b = append-nil b
concat-snoc (d ∷ bs) b = rw (concat-snoc bs b, append_assoc)

-- Whatever QGIS writes and however it cuts it in parts, the client receives it whole and in order:
-- the body and the chunks that `fetch_more` yields make up what was written, the request is then
-- done, and where there are chunks `fetch_more` comes to their end. The answer's status is the
-- normal 200 and every send succeeds.
pub stream_roundtrip :
    (message : Content) (meta : Option Metadata) (hs : Headers) (parts : List Content)
    (last : Content)
    → (delivered (received message meta 200 hs parts last) ≡ concat parts ++ last)
      × (is_done (received message meta 200 hs parts last) ≡ true)
      × ((received message meta 200 hs parts last).status ≡ some (if null parts then 200 else 206))
      × ((fetch_more (received message meta 200 hs parts last).chunks).1 ≡ not (null parts))
unfolding delivered is_done
stream_roundtrip message meta hs [] [] =
    unfold messages answer receive_all in (refl, refl, refl, refl)
stream_roundtrip message meta hs [] (x ∷ last) =
    unfold messages answer receive_all in (append-nil (x ∷ last), refl, refl, refl)
stream_roundtrip message meta hs (b ∷ bs) last =
    rw
      (
        messages-chunked message meta hs b bs last,
        receive-chunked hs meta b (bs ++ last ∷ []),
        fetch_more-ended (bs ++ last ∷ []),
        concat-snoc bs last,
      )
      (sym (append_assoc b (concat bs) last), refl, refl, refl)
