-- ===== src/Supervisor/Notifier.antt =====
-- The notices that a worker sends, whatever the order of the calls, and those that arrive.
use py_qgis_server.Prelude.{Bool, true, false, List, [], ◌∷◌, ◌++◌}
use py_qgis_server.Supervisor.{
  Attempt, Client, Notice, Sending, busy, done, failed, notify_busy, notify_done, report,
  send_report, taken, would_block,
}

-- The calls that the worker's loop makes.
pub data Call (R : Type 0) : Type 0 where
  call_done call_busy : Call R
  call_report : R → Call R

-- A notice that the socket takes arrives.
abbrev pub arrival : {R : Type 0} → Attempt R → List (Notice R)
arrival (n, taken) = n ∷ []
arrival (n, would_block) = []
arrival (n, failed) = []

abbrev pub arrivals : {R : Type 0} → List (Attempt R) → List (Notice R)
arrivals [] = []
arrivals (a ∷ as') = arrival a ++ arrivals as'

-- What is known of a worker, and what it is: one that is known to be busy is.
data Knows : Bool → Bool → Type 0 where
  idle : Knows false false
  unseen : Knows false true
  seen : Knows true true

module _ {R : Type 0} where
  unfoldable pub call : Call R → Sending → Client → Client × List (Attempt R)
  unfolding notify_done notify_busy send_report
  call call_done w c = notify_done w c
  call call_busy w c = notify_busy w c
  call (call_report r) w c = send_report r w c

  -- Calls, each with what the socket does if it is used.
  unfoldable pub calls : List (Call R × Sending) → Client → List (Attempt R)
  unfolding call
  calls [] c = []
  calls ((k, w) ∷ ks) c = let (c', sent) = call k w c in sent ++ calls ks c'

  -- Busy and done in turn, from the state that the flag tells.
  abbrev pub Alternates : Bool → List (Attempt R) → Type 0
  Alternates b [] = Unit
  Alternates false ((busy, w) ∷ ns) = Alternates true ns
  Alternates true ((busy, w) ∷ ns) = ⊥
  Alternates true ((done, w) ∷ ns) = Alternates false ns
  Alternates false ((done, w) ∷ ns) = ⊥
  Alternates b ((report r, w) ∷ ns) = Alternates b ns

  -- The notices that a worker hands to its socket alternate, whatever it calls and whatever the
  -- socket takes: it never says twice in a row that it is busy, nor that it is done.
  pub calls-Alternates :
      (ks : List (Call R × Sending)) (b : Bool)
      → Alternates b (calls ks (record { enabled = true; is_busy = b }))
  unfolding calls
  calls-Alternates [] b = tt
  calls-Alternates ((call_done, w) ∷ ks) true = calls-Alternates ks false
  calls-Alternates ((call_done, w) ∷ ks) false = calls-Alternates ks false
  calls-Alternates ((call_busy, w) ∷ ks) true = calls-Alternates ks true
  calls-Alternates ((call_busy, w) ∷ ks) false = calls-Alternates ks true
  calls-Alternates ((call_report r, w) ∷ ks) true = calls-Alternates ks true
  calls-Alternates ((call_report r, w) ∷ ks) false = calls-Alternates ks false

  -- The socket takes every notice of a worker that is done; others may be lost.
  abbrev pub KeepsDone : List (Call R × Sending) → Type 0
  KeepsDone [] = Unit
  KeepsDone ((call_done, taken) ∷ ks) = KeepsDone ks
  KeepsDone ((call_done, would_block) ∷ ks) = ⊥
  KeepsDone ((call_done, failed) ∷ ks) = ⊥
  KeepsDone ((call_busy, w) ∷ ks) = KeepsDone ks
  KeepsDone ((call_report r, w) ∷ ks) = KeepsDone ks

  -- No process that is known to be busy, as the flag tells, says again that it is.
  abbrev pub OnceBusy : Bool → List (Notice R) → Type 0
  OnceBusy b [] = Unit
  OnceBusy false (busy ∷ ns) = OnceBusy true ns
  OnceBusy true (busy ∷ ns) = ⊥
  OnceBusy b (done ∷ ns) = OnceBusy false ns
  OnceBusy b (report r ∷ ns) = OnceBusy b ns

  arrivals-Knows :
      (ks : List (Call R × Sending)) {k b : Bool}
      → Knows k b
      → KeepsDone ks
      → OnceBusy k (arrivals (calls ks (record { enabled = true; is_busy = b })))
  unfolding calls
  arrivals-Knows [] h d = tt
  arrivals-Knows ((call_done, taken) ∷ ks) idle d = arrivals-Knows ks idle d
  arrivals-Knows ((call_done, taken) ∷ ks) unseen d = arrivals-Knows ks idle d
  arrivals-Knows ((call_done, taken) ∷ ks) seen d = arrivals-Knows ks idle d
  arrivals-Knows ((call_done, would_block) ∷ ks) h d = absurd d
  arrivals-Knows ((call_done, failed) ∷ ks) h d = absurd d
  arrivals-Knows ((call_busy, taken) ∷ ks) idle d = arrivals-Knows ks seen d
  arrivals-Knows ((call_busy, would_block) ∷ ks) idle d = arrivals-Knows ks unseen d
  arrivals-Knows ((call_busy, failed) ∷ ks) idle d = arrivals-Knows ks unseen d
  arrivals-Knows ((call_busy, w) ∷ ks) unseen d = arrivals-Knows ks unseen d
  arrivals-Knows ((call_busy, w) ∷ ks) seen d = arrivals-Knows ks seen d
  arrivals-Knows ((call_report r, taken) ∷ ks) idle d = arrivals-Knows ks idle d
  arrivals-Knows ((call_report r, taken) ∷ ks) unseen d = arrivals-Knows ks unseen d
  arrivals-Knows ((call_report r, taken) ∷ ks) seen d = arrivals-Knows ks seen d
  arrivals-Knows ((call_report r, would_block) ∷ ks) h d = arrivals-Knows ks h d
  arrivals-Knows ((call_report r, failed) ∷ ks) h d = arrivals-Knows ks h d

  -- If the socket takes every done notice of a worker that starts idle, the supervisor never receives
  -- a busy notice of a worker that it takes for busy, whatever the worker calls and whichever of its
  -- other notices are lost.
  pub calls-OnceBusy :
      (ks : List (Call R × Sending))
      → KeepsDone ks
      → OnceBusy false (arrivals (calls ks (record { enabled = true; is_busy = false })))
  calls-OnceBusy ks h = arrivals-Knows ks idle h
