-- ===== src/Worker/Brackets.antt =====
-- The order of what a supervised worker does: it is busy exactly while it may answer.
use mathlib.Core.List.{append_assoc, append-nil}
use mathlib.Core.Path.{subst}
use py_qgis_server.Prelude.{
  Bool, true, false, Option, none, some, List, [], ◌∷◌, ◌++◌, map, ◌≡◌, refl, sym, inl, inr,
  Bool-cases,
}
use py_qgis_server.Messages.{Payload}
use py_qgis_server.Supervisor.{
  Client, Sending, busy, done, report, notify_busy, notify_done, send_report, send,
}
use py_qgis_server.Worker.{Handler}
use py_qgis_server.Worker.Loop.{
  Broadcast, Event, Loop, Outcome, Round, Status, again, answer, answers, close_round, crashed,
  exception, exited, failure, finished, listen, looping, notice, other, ready, restart, chain,
  round, run, serve, silence, zmq_error,
}

-- `SupervisorClient()` of a worker that has a supervisor.
abbrev pub idle : Client
idle = record { enabled = true; is_busy = false }

-- From the state that the flag tells: a worker is ready, or reports, only when it is idle; it
-- answers only when it is busy; busy and done alternate; and it ends idle.
abbrev pub Bracketed : {R : Type 0} → Bool → List (Event R) → Type 0
Bracketed b [] = b ≡ false
Bracketed b (ready ∷ es) = (b ≡ false) × Bracketed false es
Bracketed b (answer p ∷ es) = (b ≡ true) × Bracketed true es
Bracketed b (notice busy w ∷ es) = (b ≡ false) × Bracketed true es
Bracketed b (notice done w ∷ es) = (b ≡ true) × Bracketed false es
Bracketed b (notice (report x) w ∷ es) = (b ≡ false) × Bracketed false es

module _ {R : Type 0} where
  answers-Bracketed :
      (ps : List Payload) (es : List (Event R))
      → Bracketed true es
      → Bracketed true (map answer ps ++ es)
  answers-Bracketed [] es h = h
  answers-Bracketed (p ∷ ps) es h = (refl, answers-Bracketed ps es h)

  tried-Bracketed :
      (o : Option Handler) (es : List (Event R))
      → Bracketed true es
      → Bracketed true (answers o ++ es)
  unfolding answers
  tried-Bracketed none es h = h
  tried-Bracketed (some h) es g = answers-Bracketed h.sent es g

  tried-done :
      (o : Option Handler) (w : Sending) (es : List (Event R))
      → Bracketed false es
      → Bracketed true ((answers o ++ notice done w ∷ []) ++ es)
  tried-done o w es h =
      subst (λ l. Bracketed true l) (sym (append_assoc (answers o) (notice done w ∷ []) es))
        (tried-Bracketed o (notice done w ∷ es) (refl, h))

  serve-idle : (r : Round R) (o : Outcome) → r.reception ≡ o → (serve r idle).1 ≡ idle
  unfolding serve notify_busy notify_done
  serve-idle r finished e = rw e refl
  serve-idle r again e = rw e refl
  serve-idle r zmq_error e = rw e refl
  serve-idle r exception e = rw e refl

  serve-Bracketed :
      (r : Round R) (o : Outcome) (es : List (Event R))
      → r.reception ≡ o
      → Bracketed false es
      → Bracketed false ((serve r idle).2 ++ es)
  unfolding serve notify_busy notify_done send
  serve-Bracketed r finished es e h = rw e (refl, tried-done _ _ es h)
  serve-Bracketed r again es e h = rw e h
  serve-Bracketed r zmq_error es e h = rw e h
  serve-Bracketed r exception es e h = rw e h

  listen-Bracketed :
      (r : Round R) (b : Broadcast R) (es : List (Event R))
      → r.broadcast ≡ b
      → Bracketed false es
      → Bracketed false ((listen r idle).1 ++ es)
  unfolding listen send_report send
  listen-Bracketed r silence es e h = rw e h
  listen-Bracketed r restart es e h = rw e h
  listen-Bracketed r other es e h = rw e h
  listen-Bracketed r failure es e h = rw e h
  listen-Bracketed r (Broadcast.report x) es e h = rw e (refl, h)

  -- What comes before a bracketed list.
  abbrev Opens : List (Event R) → Type 0
  Opens l = (es : List (Event R)) → Bracketed false es → Bracketed false (l ++ es)

  closed :
      (r : Round R) (s : Status) (c : Client) (l : List (Event R))
      → c ≡ idle
      → Opens l
      → ((close_round r (s, c, l)).supervisor ≡ idle) × Opens (close_round r (s, c, l)).events
  unfolding close_round
  closed r looping c l p o = (
    p,
    λ es h.
        subst (λ d. Bracketed false ((l ++ (listen r d).1) ++ es)) (sym p)
          (subst (λ k. Bracketed false k) (sym (append_assoc l (listen r idle).1 es))
            (o ((listen r idle).1 ++ es) (listen-Bracketed r r.broadcast es refl h))),
  )
  closed r exited c l p o = (p, o)
  closed r crashed c l p o = (p, o)

  round-idle : (r : Round R) → ((round r idle).supervisor ≡ idle) × Opens (round r idle).events
  unfolding round
  round-idle r =
      let last =
        closed r (serve r idle).0 (serve r idle).1 (serve r idle).2 (serve-idle r r.reception refl)
          (λ es h. serve-Bracketed r r.reception es refl h) in
      elim (Bool-cases r.announced) [
        | inl e ↦ rw e (last.0, λ es h. (refl, last.1 es h))
        | inr e ↦ rw e (refl, λ es h. h)
      ]

  chained :
      (s : Status) (l rest : Loop R)
      → l.supervisor ≡ idle
      → Opens l.events
      → (rest.supervisor ≡ idle) × Bracketed false rest.events
      → ((chain s l rest).supervisor ≡ idle) × Bracketed false (chain s l rest).events
  unfolding chain
  chained looping l rest p o h = (h.0, o rest.events h.1)
  chained exited l rest p o h = (p, rw (← append-nil l.events) (o [] refl))
  chained crashed l rest p o h = (p, rw (← append-nil l.events) (o [] refl))

  -- Over any rounds a supervised worker that starts idle is ready, or reports, only when it is
  -- idle, answers only between handing a busy notice to its socket and the done notice after it, and
  -- ends idle, however its requests and its sockets fail: that of the requests and answers, that of
  -- the broadcasts, and that of the notices, which may be lost.
  pub run-Bracketed :
      (rs : List (Round R))
      → ((run rs idle).supervisor ≡ idle) × Bracketed false (run rs idle).events
  unfolding run
  run-Bracketed [] = (refl, refl)
  run-Bracketed (r ∷ rs) =
      let one = round-idle r in
      chained (round r idle).status (round r idle) (run rs (round r idle).supervisor) one.0 one.1 (
        subst (λ c. ((run rs c).supervisor ≡ idle) × Bracketed false (run rs c).events) (sym one.0)
          (run-Bracketed rs))
