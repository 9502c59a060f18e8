-- ===== src/Worker/Failures.antt =====
-- What a client gets when the handler of its request fails.
use py_qgis_server.Prelude.{
  true, false, none, [], ◌∷◌, ◌++◌, map, ◌≡◌, ◌⊎◌, refl, inl, inr, Bool-cases,
}
use py_qgis_server.Messages.{Payload, reply}
use py_qgis_server.Supervisor.{busy, done, notify_busy, notify_done, send as send_notice}
use py_qgis_server.Worker.{Handler, init, send, send_header, write}
use py_qgis_server.Worker.Brackets.{idle}
use py_qgis_server.Worker.Loop.{
  Round, after_send, answer, answers, crashed, exception, exited, finished, handle, internal_error,
  looping, notice, recover, serve,
}

abbrev pub error_reply : Handler → Payload
error_reply h = reply 500 h.headers internal_error none

-- The three ends of a request whose handler failed in the state `h`.
abbrev pub Answered : {R : Type 0} → Round R → Handler → Type 0
Answered r h =
    ((h.header_written ≡ true)
      × (serve r idle ≡ (
        looping,
        idle,
        notice busy (r.sending busy) ∷ (map answer h.sent ++ notice done (r.sending done) ∷ []),
      )))
    ⊎ (((h.header_written ≡ false)
          × (r.wire h.sent (error_reply h) ≡ true)
          × (serve r idle ≡ (
            exited,
            idle,
            notice busy (r.sending busy)
                ∷ (map answer (h.sent ++ error_reply h ∷ []) ++ notice done (r.sending done) ∷ []),
          )))
        ⊎ ((h.header_written ≡ false)
            × (r.wire h.sent (error_reply h) ≡ false)
            × (serve r idle ≡ (
              crashed,
              idle,
              notice busy (r.sending busy)
                  ∷ (map answer h.sent ++ notice done (r.sending done) ∷ []),
            ))))

module _ {R : Type 0} where
  -- A request whose handler raises, other than by its socket: if the header was sent, the client
  -- gets no more than what was sent and the worker goes on; else, if the socket takes it, the client
  -- also gets an error 500 and the worker leaves its loop; else the worker dies of the failed send.
  -- The supervisor is told in each case that the worker is done.
  pub serve-Answered :
      (r : Round R) (h : Handler)
      → r.reception ≡ finished
      → r.construction ≡ finished
      → r.handle_message init ≡ (exception, h)
      → Answered r h
  unfolding serve handle recover answers after_send send send_header write notify_busy notify_done
      send_notice
  serve-Answered r h a b e = elim (Bool-cases h.header_written) [
    | inl written ↦ inl (written, rw (a, b, e, written) refl)
    | inr fresh ↦ elim (Bool-cases (r.wire h.sent (error_reply h))) [
      | inl taken ↦ inr (inl (fresh, taken, rw (a, b, e, fresh, taken) refl))
      | inr refused ↦ inr (inr (fresh, refused, rw (a, b, e, fresh, refused) refl))
    ]
  ]
