-- ===== src/Supervisor/Timers.antt =====
-- The invariant of the supervisor: its timers stand for the processes that said they are busy.
use py_qgis_server.Prelude.{
  ℕ, ◌+◌, ◌<◌, ◌≡◌, ◌≢◌, refl, ap, Option, none, some, arith, nat_eq, ◌==◌, ==_iff, if◌then◌else◌,
  Bool-cases, Option-cases, inl, inr,
}
use py_qgis_server.Dict.{get, remove}
use py_qgis_server.Dict.Laws.{get-put, get-remove}
use py_qgis_server.Supervisor.{
  Notice, busy, done, report, Timer, Supervisor, start_timer, cancel_timer,
}

-- The instant since which each process is busy, as its notices say.
abbrev pub Since : Type 0
Since = ℕ → Option ℕ

abbrev pub update : ℕ → Option ℕ → Since → Since
update pid o since p = if pid == p then o else since p

-- What the notices make of it: a kill ends a process.
abbrev pub noted : {R : Type 0} → ℕ → ℕ → Notice R → Since → Since
noted now pid busy since = update pid (some now) since
noted now pid done since = update pid none since
noted now pid (report r) since = since

abbrev pub killed : Option ℕ → Since → Since
killed none since = since
killed (some pid) since = update pid none since

-- The timers stand for the busy processes: each timer is the one its process has in the table, and
-- is due `timeout` after the process got busy; each busy process has a timer.
pub record Tracks {R : Type 0} (timeout : ℕ) (since : Since) (s : Supervisor R) : Type 0 where
  pub timed :
      (handle : ℕ) (t : Timer)
      → get handle s.timers ≡ some t
      → (start : ℕ) × (since t.pid ≡ some start)
        × (t.deadline ≡ start + timeout)
        × (get t.pid s.busy_pids ≡ some handle)
  pub listed :
      (pid start : ℕ)
      → since pid ≡ some start
      → (handle : ℕ) × (t : Timer) × (get pid s.busy_pids ≡ some handle)
        × (get handle s.timers ≡ some t)
        × (t.pid ≡ pid)
  pub unlisted : (pid : ℕ) → since pid ≡ none → get pid s.busy_pids ≡ none
  pub fresh : (handle : ℕ) (t : Timer) → get handle s.timers ≡ some t → handle < s.next

module _ {R : Type 0} (timeout now pid : ℕ) (since : Since) (s : Supervisor R) where
  abbrev new : Timer
  new = record { deadline = now + timeout; pid = pid }

  start-timed :
      Tracks timeout since s
      → since pid ≡ none
      → (handle : ℕ) (t : Timer) → get handle (start_timer timeout now pid s).timers ≡ some t
      → (start : ℕ) × (update pid (some now) since t.pid ≡ some start)
        × (t.deadline ≡ start + timeout)
        × (get t.pid (start_timer timeout now pid s).busy_pids ≡ some handle)
  unfolding start_timer
  start-timed h idle handle t e = elim (Bool-cases (s.next == handle)) [
    | inl this ↦
        let same : new ≡ t = ground (arith, get-put s.next handle new s.timers) in
        rw (← same) (now, ground arith, refl, ground (arith, get-put pid pid s.next s.busy_pids))
    | inr other ↦
        let old : get handle s.timers ≡ some t =
          ground (arith, get-put s.next handle new s.timers) in
        let (start, a, b, c) = h.timed handle t old in
        (start, ground arith, b, ground (arith, get-put pid t.pid s.next s.busy_pids))
  ]

  start-listed :
      Tracks timeout since s
      → (p start : ℕ) → update pid (some now) since p ≡ some start
      → (handle : ℕ) × (t : Timer) × (get p (start_timer timeout now pid s).busy_pids ≡ some handle)
        × (get handle (start_timer timeout now pid s).timers ≡ some t)
        × (t.pid ≡ p)
  unfolding start_timer
  start-listed h p start e = elim (Bool-cases (pid == p)) [
    | inl this ↦ (
      s.next,
      new,
      ground (arith, get-put pid p s.next s.busy_pids),
      ground (arith, get-put s.next s.next new s.timers),
      ground arith,
    )
    | inr other ↦
        let (handle, t, a, b, c) = h.listed p start (ground arith) in
        (
          handle,
          t,
          ground (arith, get-put pid p s.next s.busy_pids),
          ground (arith, get-put s.next handle new s.timers, h.fresh handle t b),
          c,
        )
  ]

  pub start-Tracks :
      Tracks timeout since s
      → since pid ≡ none
      → Tracks timeout (update pid (some now) since) (start_timer timeout now pid s)
  start-Tracks h idle = record {
    timed = start-timed h idle;
    listed = start-listed h;
    unlisted =
        λ p e. unfold start_timer in ground (arith, get-put pid p s.next s.busy_pids, h.unlisted p);
    fresh = λ handle t e.
        unfold start_timer in ground (arith, get-put s.next handle new s.timers, h.fresh handle t);
  }

module _ {R : Type 0} (timeout pid : ℕ) (since : Since) (s : Supervisor R)
    (h : Tracks timeout since s) where
  -- The state without the timer `handle` of the process.
  abbrev without : ℕ → Supervisor R
  without handle = record s { timers = remove handle s.timers; busy_pids = remove pid s.busy_pids }

  -- The timer of a listed process is its own.
  owner :
      (handle : ℕ)
      → get pid s.busy_pids ≡ some handle
      → (t : Timer) × (get handle s.timers ≡ some t) × (t.pid ≡ pid)
  owner handle known = elim (Option-cases (since pid)) [
    | inl idle ↦ absurd (ground (arith, h.unlisted pid idle))
    | inr (start, at) ↦ let (k, t, a, b, c) = h.listed pid start at in (t, ground arith, c)
  ]

  without-Tracks :
      (handle : ℕ)
      → get pid s.busy_pids ≡ some handle
      → Tracks timeout (update pid none since) (without handle)
  without-Tracks handle known = record {
    timed = λ k t e.
        let old : get k s.timers ≡ some t = ground (arith, get-remove handle k s.timers) in
        let (start, a, b, c) = h.timed k t old in
        let other : t.pid ≢ pid =
          λ p. ground (arith, get-remove handle k s.timers, ap (λ q. get q s.busy_pids) p) in
        (
          start,
          ground (arith, ==_iff pid t.pid),
          b,
          ground (arith, get-remove pid t.pid s.busy_pids),
        );
    listed = λ p start e.
        let (k, t, a, b, c) = h.listed p start (ground arith) in
        let other : p ≢ pid = ground arith in
        let old : get t.pid s.busy_pids ≡ some k = rw c a in
        let (u, mine, named) = owner handle known in
        let apart : k ≢ handle = λ q. ground arith in
        (
          k,
          t,
          ground (arith, get-remove pid p s.busy_pids),
          ground (arith, get-remove handle k s.timers),
          c,
        );
    unlisted = λ p e. ground (arith, get-remove pid p s.busy_pids, h.unlisted p);
    fresh = λ k t e. ground (arith, get-remove handle k s.timers, h.fresh k t);
  }

  cancel-without :
      (handle : ℕ) → get pid s.busy_pids ≡ some handle → cancel_timer pid s ≡ without handle
  unfolding cancel_timer
  cancel-without handle known = rw (known, cancel_timer)

  cancel-idle : get pid s.busy_pids ≡ none → cancel_timer pid s ≡ s
  unfolding cancel_timer
  cancel-idle idle = rw (idle, cancel_timer)

  pub cancel-Tracks : Tracks timeout (update pid none since) (cancel_timer pid s)
  cancel-Tracks = elim (Option-cases (get pid s.busy_pids)) [
    | inl idle ↦ rw (cancel-idle idle) (record {
      timed = λ k t e. let (start, a, b, c) = h.timed k t e in (start, ground arith, b, c);
      listed = λ p start e. h.listed p start (ground arith);
      unlisted = λ p e. ground (arith, h.unlisted p);
      fresh = h.fresh;
    })
    | inr (handle, known) ↦ rw (cancel-without handle known) (without-Tracks handle known)
  ]
