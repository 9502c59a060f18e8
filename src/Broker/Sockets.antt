-- ===== src/Broker/Sockets.antt =====
-- The two socket handlers of the broker: what they do to the queue and to the set of workers.
use mathlib.Core.List.{append-nil}
use py_qgis_server.Prelude.{
  ℕ, ◌+◌, ◌≤◌, ◌≡◌, refl, sym, Bytes, ◌&&◌, Option, none, some, List, [], ◌∷◌, ◌++◌, arith, ◌==◌,
  ==_iff, string_eq, ltb, if◌then◌else◌, length, count, count-append, count-eq-zero,
}
use py_qgis_server.Broker.{
  Request, Broker, Input, Event, worker_ready, send_client, reply, on_backend, on_frontend, on_some,
}
use py_qgis_server.Broker.Dispatch.{settled, assigned}

-- The request that a turn takes in when `n` others wait.
abbrev pub accepted : ℕ → Input → Option (List Bytes) → ℕ → List Request
accepted maxqueue i (some (client ∷ msgid ∷ body ∷ [])) n =
    if ltb n maxqueue
    then record { time = i.arrival; client = client; msgid = msgid; body = body } ∷ []
    else []
accepted maxqueue i _ n = []

-- How often a message announces the worker `v`.
abbrev pub announces : Bytes → Option (List Bytes) → ℕ
announces v (some (worker ∷ client ∷ rest)) = if worker == v && client == worker_ready then 1 else 0
announces v _ = 0

-- Events that only answer clients settle no request and use no worker.
pub record IsReply (es : List Event) : Type 0 where
  pub settles : settled es ≡ []
  pub assigns : assigned es ≡ []

pub send_client-IsReply : (i : Input) (msg : List Bytes) → IsReply (send_client i msg)
unfolding send_client
send_client-IsReply i msg = ground arith

pub backend-waiting :
    (i : Input) (m : Option (List Bytes)) (b : Broker)
    → (on_some (on_backend i) m b).0.waiting ≡ b.waiting
unfolding on_backend
backend-waiting i (some (w ∷ c ∷ rest)) b = ground arith
backend-waiting i _ b = refl

pub reply-IsReply : (i : Input) (c : Bytes) (rest : List Bytes) → IsReply (reply i c rest)
unfolding reply
reply-IsReply i c [] = record { settles = refl; assigns = refl }
reply-IsReply i c (m ∷ []) = record { settles = refl; assigns = refl }
reply-IsReply i c (m ∷ d ∷ []) = send_client-IsReply i (c ∷ m ∷ d ∷ [])
reply-IsReply i c (m ∷ d ∷ x ∷ xs) = record { settles = refl; assigns = refl }

pub backend-IsReply :
    (i : Input) (m : Option (List Bytes)) (b : Broker) → IsReply (on_some (on_backend i) m b).1
unfolding on_backend
backend-IsReply i none b = record { settles = refl; assigns = refl }
backend-IsReply i (some []) b = record { settles = refl; assigns = refl }
backend-IsReply i (some (x ∷ [])) b = record { settles = refl; assigns = refl }
backend-IsReply i (some (w ∷ c ∷ rest)) b = ground (arith, reply-IsReply i c rest)

-- A message adds its worker once if it announces one that is not there, and takes none away.
pub backend-workers :
    (i : Input) (m : Option (List Bytes)) (b : Broker) (v : Bytes)
    → count v (on_some (on_backend i) m b).0.workers ≤ count v b.workers + announces v m
unfolding on_backend
backend-workers i none b v = omega arith
backend-workers i (some []) b v = omega arith
backend-workers i (some (x ∷ [])) b v = omega arith
backend-workers i (some (w ∷ c ∷ rest)) b v =
    ground (arith, count-append v b.workers (w ∷ []), ==_iff w v)

pub backend-keeps :
    (i : Input) (m : Option (List Bytes)) (b : Broker) (v : Bytes)
    → count v b.workers ≤ count v (on_some (on_backend i) m b).0.workers
unfolding on_backend
backend-keeps i (some (w ∷ c ∷ rest)) b v = ground (arith, count-append v b.workers (w ∷ []))
backend-keeps i _ b v = omega arith

pub backend-distinct :
    (i : Input) (m : Option (List Bytes)) (b : Broker) (v : Bytes)
    → count v b.workers ≤ 1
    → count v (on_some (on_backend i) m b).0.workers ≤ 1
unfolding on_backend
backend-distinct i none b v h = h
backend-distinct i (some []) b v h = h
backend-distinct i (some (x ∷ [])) b v h = h
backend-distinct i (some (w ∷ c ∷ rest)) b v h =
    ground (arith, count-append v b.workers (w ∷ []), count-eq-zero w b.workers, ==_iff w v)

pub frontend-workers :
    (maxqueue : ℕ) (i : Input) (m : Option (List Bytes)) (b : Broker)
    → (on_some (on_frontend maxqueue i) m b).0.workers ≡ b.workers
unfolding on_frontend
frontend-workers maxqueue i (some (c ∷ m ∷ d ∷ [])) b = ground arith
frontend-workers maxqueue i _ b = refl

pub frontend-IsReply :
    (maxqueue : ℕ) (i : Input) (m : Option (List Bytes)) (b : Broker)
    → IsReply (on_some (on_frontend maxqueue i) m b).1
unfolding on_frontend
frontend-IsReply maxqueue i (some (c ∷ m ∷ d ∷ [])) b =
    ground (arith, send_client-IsReply i (c ∷ m ∷ "ERR" ∷ "509" ∷ []))
frontend-IsReply maxqueue i _ b = record { settles = refl; assigns = refl }

pub frontend-waiting :
    (maxqueue : ℕ) (i : Input) (m : Option (List Bytes)) (b : Broker)
    → (on_some (on_frontend maxqueue i) m b).0.waiting
      ≡ b.waiting ++ accepted maxqueue i m (length b.waiting)
unfolding on_frontend
frontend-waiting maxqueue i (some (c ∷ m ∷ d ∷ [])) b = ground (arith, append-nil b.waiting)
frontend-waiting maxqueue i _ b = sym (append-nil b.waiting)

pub length-accepted-le :
    (maxqueue : ℕ) (i : Input) (m : Option (List Bytes)) (n : ℕ)
    → n ≤ maxqueue
    → n + length (accepted maxqueue i m n) ≤ maxqueue
length-accepted-le maxqueue i (some (c ∷ m ∷ d ∷ [])) n h = ground arith
length-accepted-le maxqueue i _ n h = omega arith
