-- ===== src/Broker/Dispatch.antt =====
-- The loop that hands waiting requests to workers: order, time limits, progress, workers used.
use py_qgis_server.Prelude.{
  ℕ, ◌+◌, ◌-◌, ◌≤◌, ◌<◌, ◌≡◌, ◌⊎◌, refl, Bytes, true, List, [], ◌∷◌, ◌++◌, arith, string_eq, length,
  count, Bool-cases, inl, inr, All,
}
use py_qgis_server.Broker.{
  Request, Input, Event, to_client, to_worker, dropped, frames, assign, expired, dispatch,
}
use py_qgis_server.Broker.Assign.{count-assign, assign-none, assign-reachable}

-- The requests that events settle, and the workers that were given one, in order.
abbrev pub settled : List Event → List Request
settled [] = []
settled (to_client msg ∷ es) = settled es
settled (to_worker w q ∷ es) = q ∷ settled es
settled (dropped q ∷ es) = q ∷ settled es

abbrev pub assigned : List Event → List Bytes
assigned [] = []
assigned (to_client msg ∷ es) = assigned es
assigned (to_worker w q ∷ es) = w ∷ assigned es
assigned (dropped q ∷ es) = assigned es

-- What the time limit asks of an event at the instant `now`.
abbrev pub InTime : ℕ → ℕ → Event → Type 0
InTime timeout now (to_client msg) = Unit
InTime timeout now (to_worker w q) = now - q.time ≤ timeout
InTime timeout now (dropped q) = timeout < now - q.time

module _ (timeout : ℕ) (i : Input) where
  -- Requests leave from the front of the queue, in order, and each one that leaves is settled once.
  pub dispatch-settled :
      (ws : List Bytes) (qs : List Request)
      → settled (dispatch timeout i ws qs).events ++ (dispatch timeout i ws qs).waiting ≡ qs
  unfolding dispatch
  dispatch-settled ws [] = refl
  dispatch-settled [] (q ∷ qs) = refl
  dispatch-settled (w ∷ ws) (q ∷ qs) =
      let r = assign i q (length (w ∷ ws)) (w ∷ ws) in
      ground (arith, dispatch-settled (w ∷ ws) qs, dispatch-settled r.0 qs)

  pub dispatch-InTime :
      (ws : List Bytes) (qs : List Request)
      → All (InTime timeout i.now) (dispatch timeout i ws qs).events
  unfolding dispatch
  dispatch-InTime ws [] = tt
  dispatch-InTime [] (q ∷ qs) = tt
  dispatch-InTime (w ∷ ws) (q ∷ qs) =
      let r = assign i q (length (w ∷ ws)) (w ∷ ws) in
      ground (arith, dispatch-InTime (w ∷ ws) qs, dispatch-InTime r.0 qs)

  -- The loop goes on until no worker is available or nothing waits.
  pub dispatch-exhausted :
      (ws : List Bytes) (qs : List Request)
      → ((dispatch timeout i ws qs).workers ≡ []) ⊎ ((dispatch timeout i ws qs).waiting ≡ [])
  unfolding dispatch
  dispatch-exhausted ws [] = inr refl
  dispatch-exhausted [] (q ∷ qs) = inl refl
  dispatch-exhausted (w ∷ ws) (q ∷ qs) =
      let r = assign i q (length (w ∷ ws)) (w ∷ ws) in
      ground (
        arith,
        dispatch-exhausted (w ∷ ws) qs,
        dispatch-exhausted r.0 qs,
        assign-none i q (length (w ∷ ws)) (w ∷ ws),
      )

  -- No worker is given more requests than it was available.
  pub dispatch-workers :
      (v : Bytes) (ws : List Bytes) (qs : List Request)
      → count v (assigned (dispatch timeout i ws qs).events)
          + count v (dispatch timeout i ws qs).workers
        ≤ count v ws
  unfolding dispatch
  dispatch-workers v ws [] = omega arith
  dispatch-workers v [] (q ∷ qs) = omega arith
  dispatch-workers v (w ∷ ws) (q ∷ qs) =
      let r = assign i q (length (w ∷ ws)) (w ∷ ws) in
      ground (
        arith,
        dispatch-workers v (w ∷ ws) qs,
        dispatch-workers v r.0 qs,
        count-assign i q v (length (w ∷ ws)) (w ∷ ws),
      )

  -- With an available worker that can be reached, the next request is settled.
  pub dispatch-reachable :
      (v : Bytes) (ws : List Bytes) (q : Request) (qs : List Request)
      → 0 < count v ws
      → i.backend_sends (frames v q) ≡ true
      → (rest : List Request) × (settled (dispatch timeout i ws (q ∷ qs)).events ≡ q ∷ rest)
  unfolding dispatch
  dispatch-reachable v [] q qs c s = absurd (omega arith)
  dispatch-reachable v (w ∷ ws) q qs c s = elim (Bool-cases (expired timeout i q)) [
    | inl old ↦ (settled (dispatch timeout i (w ∷ ws) qs).events, rw old)
    | inr fresh ↦
        let r = assign i q (length (w ∷ ws)) (w ∷ ws) in
        let (u, e) = assign-reachable i q (length (w ∷ ws)) (w ∷ ws) v (omega arith) c s in
        (settled (dispatch timeout i r.0 qs).events, rw (fresh, e))
  ]
