-- ===== src/Supervisor/Kills.antt =====
-- Who is killed, and when.
use py_qgis_server.Prelude.{
  ℕ, ◌+◌, ◌≤◌, ◌≡◌, refl, ap, none, some, arith, nat_eq, ==_self, leb, leb→le, ◌⊎◌, ◌↔◌, Bool-cases,
  Option-cases, inl, inr,
}
use py_qgis_server.Dict.{get, put}
use py_qgis_server.Dict.Laws.{get-put}
use py_qgis_server.Supervisor.{
  Notice, busy, done, report, Timer, Supervisor, init, cancel_timer, kill, on_notice, fire,
  start_timer,
}
use py_qgis_server.Supervisor.Timers.{Since, noted, killed, Tracks, start-Tracks, cancel-Tracks}

-- A notice keeps the timers in step, if a process says that it is busy only when it was not.
pub notice-Tracks :
    {R : Type 0} (timeout now pid : ℕ) (n : Notice R) (since : Since) (s : Supervisor R)
    → Tracks timeout since s
    → (n ≡ busy → since pid ≡ none)
    → Tracks timeout (noted now pid n since) (on_notice timeout now pid n s)
unfolding on_notice
notice-Tracks timeout now pid busy since s h idle =
    start-Tracks timeout now pid since s h (idle refl)
notice-Tracks timeout now pid done since s h idle = cancel-Tracks timeout pid since s h
notice-Tracks timeout now pid (report r) since s h idle = record {
  timed = h.timed;
  listed = h.listed;
  unlisted = h.unlisted;
  fresh = h.fresh;
}

module _ {R : Type 0} (timeout now : ℕ) (since : Since) (s : Supervisor R)
    (h : Tracks timeout since s) where
  -- A timer that is due kills its process, and ends like a notice that the process is done.
  fire-due :
      (handle : ℕ) (t : Timer)
      → get handle s.timers ≡ some t
      → t.deadline ≤ now
      → fire now handle s ≡ (cancel_timer t.pid s, some t.pid)
  unfolding fire
  fire-due handle t e due =
      let (start, a, b, c) = h.timed handle t e in
      rw (e, fire) (unfold cancel_timer in ground arith)

  fire_cases :
      (handle : ℕ)
      → (fire now handle s ≡ (s, none))
        ⊎ ((t : Timer) × (get handle s.timers ≡ some t)
            × (t.deadline ≤ now)
            × (fire now handle s ≡ (cancel_timer t.pid s, some t.pid)))
  fire_cases handle = elim (Option-cases (get handle s.timers)) [
    | inl missing ↦ inl (unfold fire in rw (missing, fire))
    | inr (t, there) ↦ elim (Bool-cases (leb t.deadline now)) [
      | inl due ↦
          inr (
            t,
            there,
            leb→le t.deadline now due,
            fire-due handle t there (leb→le t.deadline now due),
          )
      | inr early ↦ inl (unfold fire in rw (there, fire) (rw early))
    ]
  ]

  -- Only a process that has been busy for the whole time limit, by its own notices, is killed.
  pub fire_justified :
      (handle pid : ℕ)
      → (fire now handle s).1 ≡ some pid
      → (start : ℕ) × (since pid ≡ some start) × (start + timeout ≤ now)
  fire_justified handle pid e = elim (fire_cases handle) [
    | inl idle ↦ absurd (ground arith)
    | inr (t, there, due, fired) ↦
        let (start, a, b, c) = h.timed handle t there in
        let same : t.pid ≡ pid = ground arith in (start, rw (← same) a, omega arith)
  ]

  -- A process that has been busy for the whole time limit has a timer that kills it.
  pub stalled_killed :
      (pid start : ℕ)
      → since pid ≡ some start
      → start + timeout ≤ now
      → (handle : ℕ) × ((fire now handle s).1 ≡ some pid)
  stalled_killed pid start at due =
      let (handle, t, a, b, c) = h.listed pid start at in
      let (start', a', b', c') = h.timed handle t b in
      let same : start' ≡ start = ground (arith, ap since c) in
      (handle, rw (fire-due handle t b (omega arith)) (ap some c))

  -- The event loop's timers keep the table in step.
  pub fire-Tracks :
      (handle : ℕ) → Tracks timeout (killed (fire now handle s).1 since) (fire now handle s).0
  fire-Tracks handle = elim (fire_cases handle) [
    | inl idle ↦ rw idle h
    | inr (t, there, due, fired) ↦ rw fired (cancel-Tracks timeout t.pid since s h)
  ]

-- The states that the supervisor reaches, with what the notices said, when each process says that
-- it is busy only when it was not.
pub data Reach {R : Type 0} (timeout : ℕ) : Since → Supervisor R → Type 0 where
  start : Reach timeout (λ pid. none) init
  notice :
      {since : Since} {s : Supervisor R} (now pid : ℕ) (n : Notice R)
      → Reach timeout since s
      → (n ≡ busy → since pid ≡ none)
      → Reach timeout (noted now pid n since) (on_notice timeout now pid n s)
  fires :
      {since : Since} {s : Supervisor R} (now handle : ℕ)
      → Reach timeout since s
      → Reach timeout (killed (fire now handle s).1 since) (fire now handle s).0

pub Reach-Tracks :
    {R : Type 0} {timeout : ℕ} {since : Since} {s : Supervisor R}
    → Reach timeout since s
    → Tracks timeout since s
Reach-Tracks start = record {
  timed = λ k t e. absurd (unfold get in cc);
  listed = λ p b e. cc;
  unlisted = λ p e. unfold get in refl;
  fresh = λ k t e. absurd (unfold get in cc);
}
Reach-Tracks {R} {timeout} (notice {since = since} {s = s} now pid n r ok) =
    notice-Tracks timeout now pid n since s (Reach-Tracks r) ok
Reach-Tracks {R} {timeout} (fires {since = since} {s = s} now handle r) =
    fire-Tracks timeout now since s (Reach-Tracks r) handle

-- In every state that is reached, a timer of the event loop kills a process exactly when the process
-- has been busy for the whole time limit: whoever is killed has been, and whoever has been has a
-- timer that kills it.
pub kills_exact :
    {R : Type 0} (timeout now : ℕ) (since : Since) (s : Supervisor R) (pid : ℕ)
    → Reach timeout since s
    → ((handle : ℕ) × ((fire now handle s).1 ≡ some pid))
      ↔ ((begun : ℕ) × (since pid ≡ some begun) × (begun + timeout ≤ now))
kills_exact timeout now since s pid r = (
  λ k. fire_justified timeout now since s (Reach-Tracks r) k.0 pid k.1,
  λ b. stalled_killed timeout now since s (Reach-Tracks r) pid b.0 b.1 b.2,
)

-- Without that condition a process dies early: in whatever state a process says twice in a row that it
-- is busy, the timer of the first notice kills it when it is due, however short the time since the
-- second one.
pub stale_timer_kills :
    {R : Type 0} (timeout first second now pid : ℕ) (s : Supervisor R)
    → first + timeout ≤ now
    → (fire now s.next (on_notice timeout second pid busy (on_notice timeout first pid busy s))).1
      ≡ some pid
unfolding on_notice fire start_timer kill
stale_timer_kills timeout first second now pid s due = ground (
  arith,
  ==_self pid,
  ==_self s.next,
  get-put (s.next + 1) s.next (record { deadline = second + timeout; pid = pid })
      (put s.next (record { deadline = first + timeout; pid = pid }) s.timers),
  get-put s.next s.next (record { deadline = first + timeout; pid = pid }) s.timers,
  get-put pid pid (s.next + 1) (put pid s.next s.busy_pids),
)
