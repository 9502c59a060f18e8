-- ===== src/Stream/Losses.antt =====
-- Where the transfer is not faithful: statuses other than 200 on an answer that is sent in parts.
use mathlib.Core.List.{append-nil}
use py_qgis_server.Prelude.{
  ℕ, ◌≡◌, ◌≢◌, refl, ap, ◌∙◌, true, false, Option, some, List, [], ◌∷◌, ok, arith, nat_eq, ==_iff,
}
use py_qgis_server.Prelude.Actions.{bind_result, ◌>>◌}
use py_qgis_server.Messages.{Content, Headers, Metadata, Payload, reply}
use py_qgis_server.Response
use py_qgis_server.Response.{Response, write, flush, finish}
use py_qgis_server.Client.{is_done}
use py_qgis_server.Stream.{
  up, flush_parts, answer, prepared, messages, receive_all, received, delivered,
}

-- The response once a header of the status `code` is out.
abbrev answered : ℕ → Headers → List Payload → Response
answered code hs sent =
    Response.init (record { headers = hs; status_code = code; header_written = true; sent = sent })

module _ (message : Content) (meta : Option Metadata) (code : ℕ) (hs : Headers)
    (other : code ≢ 200) where
  first_flush :
      (b : Content)
      → (do write b; flush message up meta) (prepared code hs)
        ≡ (ok tt, answered code hs (reply code hs b meta ∷ []))
  unfolding write flush
  first_flush [] = ground (arith, ==_iff code 200)
  first_flush (x ∷ b) = ground (arith, ==_iff code 200)

module _ (message : Content) (meta : Option Metadata) (code : ℕ) (hs : Headers)
    (other : code ≢ 206) where
  later_flush :
      (b : Content) (sent : List Payload)
      → (do write b; flush message up meta) (answered code hs sent) ≡ (ok tt, answered code hs sent)
  unfolding write flush
  later_flush [] sent = ground (arith, ==_iff code 206)
  later_flush (x ∷ b) sent = ground (arith, ==_iff code 206)

  later_parts :
      (bs : List Content) (sent : List Payload)
      → flush_parts message up meta bs (answered code hs sent) ≡ (ok tt, answered code hs sent)
  unfolding flush_parts
  later_parts [] sent = refl
  later_parts (b ∷ bs) sent =
      ap (λ r. bind_result r (λ _. flush_parts message up meta bs)) (later_flush b sent)
      ∙ later_parts bs sent

  last_part :
      (b : Content) (sent : List Payload)
      → ((do write b; finish message up meta) (answered code hs sent)).1.handler.sent ≡ sent
  unfolding write finish
  last_part [] sent = ground (arith, ==_iff code 206)
  last_part (x ∷ b) sent = ground (arith, ==_iff code 206)

module _ (message : Content) (meta : Option Metadata) (code : ℕ) (hs : Headers) where
  messages-truncated :
      (b : Content) (bs : List Content) (last : Content)
      → code ≢ 200
      → code ≢ 206
      → messages message meta code hs (b ∷ bs) last ≡ reply code hs b meta ∷ []
  unfolding messages answer flush_parts
  messages-truncated b bs last other other' =
      ap
        (λ r.
          (bind_result (bind_result r (λ _. flush_parts message up meta bs))
            (λ _. (do write last; finish message up meta))).1.handler.sent)
        (first_flush message meta code hs other b)
      ∙ ap (λ r. (bind_result r (λ _. (do write last; finish message up meta))).1.handler.sent)
          (later_parts message meta code hs other' bs (reply code hs b meta ∷ []))
      ∙ last_part message meta code hs other' last (reply code hs b meta ∷ [])

  -- An answer of a status other than 200 and 206 that is flushed before it is finished reaches the
  -- client cut after the first part, and the client takes it for complete.
  pub stream_truncated :
      (b : Content) (bs : List Content) (last : Content)
      → code ≢ 200
      → code ≢ 206
      → (delivered (received message meta code hs (b ∷ bs) last) ≡ b)
        × (is_done (received message meta code hs (b ∷ bs) last) ≡ true)
        × ((received message meta code hs (b ∷ bs) last).status ≡ some code)
  unfolding delivered is_done
  stream_truncated b bs last other other' =
      rw (messages-truncated b bs last other other')
        (unfold receive_all in ground (arith, ==_iff code 206, append-nil b))

module _ (message : Content) (meta : Option Metadata) (hs : Headers) where
  -- An answer of status 206 in one part leaves the client waiting for chunks that never come.
  pub stream_unfinished :
      (last : Content)
      → (is_done (received message meta 206 hs [] last) ≡ false)
        × ((received message meta 206 hs [] last).chunks ≡ [])
  unfolding is_done messages answer flush_parts receive_all write finish
  stream_unfinished [] = (refl, refl)
  stream_unfinished (x ∷ last) = (refl, refl)
