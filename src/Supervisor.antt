-- ===== src/Supervisor.antt =====
-- src/pyqgisserver/zeromq/supervisor.py: workers report when they are busy, and the supervisor kills
-- those that stay busy too long.
pub mod Notifier
pub mod Timers
pub mod Kills
mod Examples
use py_qgis_server.Prelude.{
  ℕ, ◌+◌, Bool, true, false, Option, none, some, List, [], ◌∷◌, ◌++◌, map, nat_eq, ltb, leb,
  if◌then◌else◌, length,
}
use py_qgis_server.Dict
use py_qgis_server.Dict.{Dict}

-- What a worker tells; a report holds whatever the worker collected.
pub data Notice (R : Type 0) : Type 0 where
  busy done : Notice R
  report : R → Notice R

-- The worker's side, class `Client`: whether it has a socket, and its flag.
pub record Client : Type 0 where
  pub enabled : Bool
  pub is_busy : Bool

-- How `send_pyobj` ends: the socket takes the notice, it would block (EAGAIN), or it fails otherwise.
pub data Sending : Type 0 where
  taken would_block failed : Sending

-- A notice that is handed to the socket, and whether the socket takes it.
abbrev pub Attempt : Type 0 → Type 0
Attempt R = Notice R × Sending

module _ {R : Type 0} where
  -- `_send`: every error of the socket is caught, so that a notice may be lost
  unfoldable pub send : Sending → Client → Notice R → List (Attempt R)
  send sending c n = if c.enabled then (n, sending) ∷ [] else []

  unfoldable pub notify_done : Sending → Client → Client × List (Attempt R)
  unfolding send
  notify_done sending c =
      if c.is_busy then (record c { is_busy = false }, send sending c done) else (c, [])

  unfoldable pub notify_busy : Sending → Client → Client × List (Attempt R)
  unfolding send
  notify_busy sending c =
      if c.is_busy then (c, []) else (record c { is_busy = true }, send sending c busy)

  unfoldable pub send_report : R → Sending → Client → Client × List (Attempt R)
  unfolding send
  send_report r sending c = (c, send sending c (report r))

-- A call of the event loop that is due at an instant.
pub record Timer : Type 0 where
  pub deadline : ℕ
  pub pid : ℕ

-- The supervisor's table of busy processes, and the timers that the event loop holds by handle.
pub record Supervisor (R : Type 0) : Type 0 where
  pub timers : Dict ℕ Timer
  pub next : ℕ
  pub busy_pids : Dict ℕ ℕ
  pub reports : Dict ℕ R

-- The timers that `stop` cancels.
unfoldable pub cancel_all : Dict ℕ ℕ → Dict ℕ Timer → Dict ℕ Timer
unfolding Dict.remove
cancel_all [] ts = ts
cancel_all ((pid, handle) ∷ d) ts = cancel_all d (Dict.remove handle ts)

module _ {R : Type 0} where
  abbrev pub init : Supervisor R
  init = record { timers = []; next = 0; busy_pids = []; reports = [] }

  -- `loop.call_later(timeout, kill, pid)`, and its handle put in the table
  unfoldable pub start_timer : ℕ → ℕ → ℕ → Supervisor R → Supervisor R
  unfolding Dict.put
  start_timer timeout now pid s = record s {
    timers = Dict.put s.next (record { deadline = now + timeout; pid = pid }) s.timers;
    next = s.next + 1;
    busy_pids = Dict.put pid s.next s.busy_pids;
  }

  -- `self._busy.pop(pid).cancel()`, a missing process passed over
  unfoldable pub cancel_timer : ℕ → Supervisor R → Supervisor R
  unfolding Dict.get Dict.remove
  cancel_timer pid s = elim (Dict.get pid s.busy_pids) [
    | none ↦ s
    | some handle ↦ record s {
      timers = Dict.remove handle s.timers;
      busy_pids = Dict.remove pid s.busy_pids;
    }
  ]

  -- The body of the loop in `_run_async`.
  unfoldable pub on_notice : ℕ → ℕ → ℕ → Notice R → Supervisor R → Supervisor R
  unfolding start_timer cancel_timer
  on_notice timeout now pid busy s = start_timer timeout now pid s
  on_notice timeout now pid done s = cancel_timer pid s
  on_notice timeout now pid (report r) s = record s { reports = Dict.put pid r s.reports }

  -- `kill`, called when a timer is due: `del` raises on a missing process, before anything is killed
  unfoldable pub kill : ℕ → Supervisor R → Supervisor R × Option ℕ
  unfolding Dict.get Dict.remove
  kill pid s = elim (Dict.get pid s.busy_pids) [
    | none ↦ (s, none)
    | some handle ↦ (record s { busy_pids = Dict.remove pid s.busy_pids }, some pid)
  ]

  -- The event loop runs the timer of a handle, if it is there and due.
  unfoldable pub fire : ℕ → ℕ → Supervisor R → Supervisor R × Option ℕ
  unfolding kill Dict.get Dict.remove
  fire now handle s = elim (Dict.get handle s.timers) [
    | none ↦ (s, none)
    | some t ↦
        if leb t.deadline now
        then kill t.pid (record s { timers = Dict.remove handle s.timers })
        else (s, none)
  ]

  unfoldable pub num_reports : Supervisor R → ℕ
  num_reports s = length s.reports

  unfoldable pub clear_reports : Supervisor R → Supervisor R
  clear_reports s = record s { reports = [] }

  unfoldable pub reports_list : Supervisor R → List R
  reports_list s = map (λ e. e.1) s.reports

  unfoldable pub stop : Supervisor R → Supervisor R
  unfolding cancel_all
  stop s = record s { timers = cancel_all s.busy_pids s.timers; busy_pids = [] }
