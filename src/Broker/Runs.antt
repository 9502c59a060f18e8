-- ===== src/Broker/Runs.antt =====
-- Any number of turns of the broker, whatever the clients, the workers and the clock do.
use mathlib.Core.List.{append_assoc, append-nil}
use py_qgis_server.Prelude.{
  ℕ, ◌+◌, ◌≤◌, ◌≡◌, refl, sym, ap, Bytes, List, [], ◌∷◌, ◌++◌, arith, string_eq, count,
  count-append,
}
use py_qgis_server.Broker.{Request, Broker, Input, turn, turns}
use py_qgis_server.Broker.Sockets.{announces}
use py_qgis_server.Broker.Dispatch.{settled, assigned}
use py_qgis_server.Broker.Turns.{
  IsValid, taken, turn-conserves, turn-workers, turn-IsValid, settled-append, assigned-append,
}

module _ (maxqueue timeout : ℕ) where
  -- The requests that the turns of a run take in, in order.
  abbrev pub all_taken : List Input → Broker → List Request
  all_taken [] b = []
  all_taken (i ∷ is) b = taken maxqueue timeout i b ++ all_taken is (turn maxqueue timeout i b).0

  -- How often the messages of a run announce the worker `v`.
  abbrev pub all_announces : Bytes → List Input → ℕ
  all_announces v [] = 0
  all_announces v (i ∷ is) = announces v i.backend + all_announces v is

  -- Over any run, the requests settled and then those left waiting are those that waited at first
  -- and then those taken in, each once and in the order of arrival.
  pub turns-conserves :
      (is : List Input) (b : Broker)
      → settled (turns maxqueue timeout is b).1 ++ (turns maxqueue timeout is b).0.waiting
        ≡ b.waiting ++ all_taken is b
  unfolding turns
  turns-conserves [] b = sym (append-nil b.waiting)
  turns-conserves (i ∷ is) b =
      rw
        (
          settled-append,
          append_assoc,
          turns-conserves is (turn maxqueue timeout i b).0,
          ← append_assoc,
          turn-conserves,
          append_assoc,
        )
        refl

  -- Over any run, the requests given to a worker, with its places left, are at most the places it
  -- had at first and the announcements that it made.
  pub turns-workers :
      (v : Bytes) (is : List Input) (b : Broker)
      → count v (assigned (turns maxqueue timeout is b).1)
          + count v (turns maxqueue timeout is b).0.workers
        ≤ count v b.workers + all_announces v is
  unfolding turns
  turns-workers v [] b = omega arith
  turns-workers v (i ∷ is) b =
      let t = turn maxqueue timeout i b in
      omega (
        arith,
        turn-workers maxqueue timeout i b v,
        turns-workers v is t.0,
        ap (count v) (assigned-append t.1 (turns maxqueue timeout is t.0).1),
        count-append v (assigned t.1) (assigned (turns maxqueue timeout is t.0).1),
      )

  -- Every run keeps the queue within its bound and `workers` a set.
  pub turns-IsValid :
      (is : List Input) (b : Broker)
      → IsValid maxqueue b
      → IsValid maxqueue (turns maxqueue timeout is b).0
  unfolding turns
  turns-IsValid [] b h = h
  turns-IsValid (i ∷ is) b h =
      turns-IsValid is (turn maxqueue timeout i b).0 (turn-IsValid maxqueue timeout i b h)
