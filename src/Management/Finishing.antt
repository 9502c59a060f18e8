-- ===== src/Management/Finishing.antt =====
-- A request of the management API finishes its response once.
use py_qgis_server.Prelude.{
  ℕ, String, Bool, true, false, Option, none, nat_eq, ◌≡◌, refl, sym, ap, ◌∙◌, inl, inr, Bool-cases,
  if◌then◌else◌, Result, ok, raise,
}
use py_qgis_server.Prelude.Actions.{bind_result, catch_result, gets, ◌>>=◌}
use py_qgis_server.Management.{
  Error, Handler, Method, Program, attempt, call_method, is_known, execute, finish, finish_once,
  method_program, perform, recover, set_status,
}
use py_qgis_server.Management.Flags.{IsConsistent, execute-Sound, finishes}

module _ (responses : ℕ → String) where
  recover-IsFinished :
      (x : Error) (s : Handler)
      → ((recover responses x s).0 ≡ ok tt) × ((recover responses x s).1.finished ≡ true)
  unfolding recover
  recover-IsFinished x s = elim (Bool-cases s.finished) [
    | inl h ↦ simp h (refl, refl)
    | inr h ↦ simp h (refl, refl)
  ]

  finish_once-IsFinished :
      (r : Result Error (Unit {0}) × Handler)
      → (bind_result r (λ u. finish_once)).0 ≡ ok tt
      → (bind_result r (λ u. finish_once)).1.finished ≡ true
  unfolding finish_once finish
  finish_once-IsFinished (raise x, s) h = absurd (cc)
  finish_once-IsFinished (ok u, s) h = elim (Bool-cases s.finished) [
    | inl k ↦ simp k refl
    | inr k ↦ simp k refl
  ]

  called-IsFinished :
      (methods : Method → Option Program) (m : Method) (finished : Bool) (s : Handler)
      → s.finished ≡ finished
      → (call_method responses methods m finished s).0 ≡ ok tt
      → (call_method responses methods m finished s).1.finished ≡ true
  unfolding call_method set_status
  called-IsFinished methods m true s e h = e
  called-IsFinished methods m false s e h =
      finish_once-IsFinished
        (perform responses (method_program methods m) (set_status responses 200 none s).1) h

  prepared-IsFinished :
      (methods : Method → Option Program) (m : Method) (r : Result Error (Unit {0}) × Handler)
      → (bind_result r (λ u. gets (λ s. s.finished) >>= call_method responses methods m)).0 ≡ ok tt
      → (bind_result r (λ u. gets (λ s. s.finished) >>= call_method responses methods m)).1.finished
        ≡ true
  prepared-IsFinished methods m (raise x, s) h = absurd (cc)
  prepared-IsFinished methods m (ok u, s) h = called-IsFinished methods m s.finished s refl h

  attempt-IsFinished :
      (prepare : Program) (methods : Method → Option Program) (m : Method) (s : Handler)
      → (attempt responses prepare methods m s).0 ≡ ok tt
      → (attempt responses prepare methods m s).1.finished ≡ true
  unfolding attempt
  attempt-IsFinished prepare methods m s h = elim (Bool-cases (is_known m)) [
    | inl k ↦
        let e : attempt responses prepare methods m s
            ≡ bind_result (perform responses prepare s)
                (λ u. gets (λ t. t.finished) >>= call_method responses methods m) =
          rw k refl in
        rw e
          (prepared-IsFinished methods m (perform responses prepare s) (ap (λ r. r.0) (sym e) ∙ h))
    | inr k ↦
        let e : attempt responses prepare methods m s ≡ (raise (Error.http_error 405 none), s) =
          rw k refl in
        absurd (
          let f : ◌≡◌ {A = Result Error (Unit {0})} (raise (Error.http_error 405 none)) (ok tt) =
            ap (λ r. r.0) (sym e) ∙ h in
          cc)
  ]

  caught :
      (r : Result Error (Unit {0}) × Handler)
      → (r.0 ≡ ok tt → r.1.finished ≡ true)
      → ((catch_result r (recover responses)).0 ≡ ok tt)
        × ((catch_result r (recover responses)).1.finished ≡ true)
  caught (ok u, s) h = (refl, h refl)
  caught (raise x, s) h = recover-IsFinished x s

  -- However the methods of a handler end, a request whose response is not finished yet returns, and
  -- finishes the response, exactly once.
  pub execute-finishes :
      (prepare : Program) (methods : Method → Option Program) (m : Method) (s : Handler)
      → s.finished ≡ false
      → finishes s.calls ≡ 0
      → ((execute responses prepare methods m s).0 ≡ ok tt)
        × ((execute responses prepare methods m s).1.finished ≡ true)
        × (finishes (execute responses prepare methods m s).1.calls ≡ 1)
  unfolding execute
  execute-finishes prepare methods m s h k =
      let (a, b) =
        caught (attempt responses prepare methods m s) (attempt-IsFinished prepare methods m s) in
      let i : IsConsistent s = k ∙ rw h refl in
      (a, b, (execute-Sound responses prepare methods m).at s i ∙ ap (λ f. if f then 1 else 0) b)
