-- ===== src/Management/Flags.antt =====
-- What the methods of a handler do to its flag and to the response.
use mathlib.Core.Path.{subst}
use py_qgis_server.Prelude.{
  ℕ, suc, ◌+◌, String, Bool, true, false, Option, none, some, List, [], ◌∷◌, ◌++◌, nat_eq, ◌≡◌,
  refl, sym, ap, ◌∙◌, inl, inr, Bool-cases, if◌then◌else◌, Result, ok, raise, arith,
}
use py_qgis_server.Prelude.Actions.{bind_result, modify, ◌>>◌}
use py_qgis_server.Prelude.Actions.Invariants.{
  Preserves, Preserves-bind, Preserves-catch, Preserves-pure, Preserves-throw, preserves_rules,
}
use py_qgis_server.Prelude.Actions.Rules.{Keeps, Keeps-bind, Keeps-pure, Keeps-throw, keeps_rules}
use py_qgis_server.Management.{
  Call, Chunk, Command, Error, Handler, Handling, Method, Program, attempt, call, call_method,
  clear, command, execute, fail, finish, finish_once, finish_response, guard, perform, recover, run,
  send_error, seq, set_header, set_response_header, set_status, set_status_code, skip, write,
  write_given, write_response,
}

-- How often the response was finished.
abbrev pub finishes : List Call → ℕ
finishes [] = 0
finishes (finish_response ∷ ks) = suc (finishes ks)
finishes (clear ∷ ks) = finishes ks
finishes (set_status_code n ∷ ks) = finishes ks
finishes (set_response_header k v ∷ ks) = finishes ks
finishes (write_response c ∷ ks) = finishes ks

finishes-append : (ks js : List Call) → finishes (ks ++ js) ≡ finishes ks + finishes js
finishes-append [] js = omega arith
finishes-append (finish_response ∷ ks) js = omega (arith, finishes-append ks js)
finishes-append (clear ∷ ks) js = finishes-append ks js
finishes-append (set_status_code n ∷ ks) js = finishes-append ks js
finishes-append (set_response_header k v ∷ ks) js = finishes-append ks js
finishes-append (write_response c ∷ ks) js = finishes-append ks js

-- The flag says whether the response was finished, which happens once.
abbrev pub IsConsistent : Handler → Type 0
IsConsistent s = finishes s.calls ≡ (if s.finished then 1 else 0)

abbrev pub Sound : Handling → Type 0
Sound m = Preserves IsConsistent m

-- The action touches neither the flag nor the number of finishes.
abbrev count : Handler → Bool × ℕ
count s = (s.finished, finishes s.calls)

abbrev Neutral : Handling → Type 0
Neutral m = Keeps count m

call-Neutral : (k : Call) → finishes (k ∷ []) ≡ 0 → Neutral (call k)
unfolding call
call-Neutral k h = record {
  at = λ s.
      let e : finishes (s.calls ++ k ∷ []) ≡ finishes s.calls =
        finishes-append s.calls (k ∷ []) ∙ omega (arith, h) in
      ap (λ n. (s.finished, n)) e;
}

reason-Neutral : (r : String) → Neutral (modify (λ s. record s { reason = r }))
reason-Neutral r = record { at = λ s. refl }

set_header-Neutral : (k v : String) → Neutral (set_header k v)
unfolding set_header
set_header-Neutral k v = call-Neutral (set_response_header k v) refl

written :
    (c : Chunk)
    → Neutral
        (set_header "Content-Type" "application/json;charset=utf-8" >> call (write_response c))
written c =
    Keeps-bind (set_header "Content-Type" "application/json;charset=utf-8")
      (λ u. call (write_response c))
      (set_header-Neutral "Content-Type" "application/json;charset=utf-8")
      (λ u. call-Neutral (write_response c) refl)

write-Neutral : (c : Chunk) → Neutral (write c)
unfolding write
write-Neutral Chunk.other = Keeps-throw Error.type_error
write-Neutral (Chunk.text t) = written (Chunk.text t)
write-Neutral (Chunk.dict t) = written (Chunk.dict t)
write-Neutral (Chunk.error_dict a n b) = written (Chunk.error_dict a n b)

write_given-Neutral : (o : Option Chunk) → Neutral (write_given o)
unfolding write_given
write_given-Neutral none = Keeps-pure tt
write_given-Neutral (some c) = write-Neutral c

set_status-Neutral :
    (responses : ℕ → String) (code : ℕ) (r : Option String) → Neutral (set_status responses code r)
unfolding set_status
set_status-Neutral responses code r =
    search (keeps_rules, reason-Neutral, call-Neutral (set_status_code code) refl)

sound : (m : Handling) → Neutral m → Sound m
sound m h = record { at = λ s i. subst (λ p. p.1 ≡ (if p.0 then 1 else 0)) (sym (h.at s)) i }

closed :
    (r : Result Error (Unit {0}) × Handler)
    → r.1.finished ≡ false
    → finishes r.1.calls ≡ 0
    → IsConsistent
        (bind_result r (λ u. modify (λ t. record t { finished = true }) >> call finish_response)).1
unfolding call
closed (ok u, t) h k = finishes-append t.calls (finish_response ∷ []) ∙ omega (arith, k)
closed (raise x, t) h k = rw h k

finish-Sound : (o : Option Chunk) → Sound (finish o)
unfolding finish
finish-Sound o = record {
  at = λ s i. elim (Bool-cases s.finished) [
    | inl h ↦ simp h (i ∙ ap (λ b. if b then 1 else 0) h)
    | inr h ↦
        let e = (write_given-Neutral o).at s in
        simp h (
          closed (write_given o s) (ap (λ p. p.0) e ∙ h)
            (ap (λ p. p.1) e ∙ i ∙ ap (λ b. if b then 1 else 0) h))
  ];
}

finish_once-Sound : Sound finish_once
unfolding finish_once
finish_once-Sound = search (preserves_rules, finish-Sound)

clear-Sound : Sound (call clear)
clear-Sound = sound (call clear) (call-Neutral clear refl)

write-Sound : (c : Chunk) → Sound (write c)
write-Sound c = sound (write c) (write-Neutral c)

header-Sound : (k v : String) → Sound (set_header k v)
header-Sound k v = sound (set_header k v) (set_header-Neutral k v)

module _ (responses : ℕ → String) where
  status-Sound : (code : ℕ) (r : Option String) → Sound (set_status responses code r)
  status-Sound code r = sound (set_status responses code r) (set_status-Neutral responses code r)

  send_error-Sound :
      (code : ℕ) (reason : Option String) (exc : Option Error)
      → Sound (send_error responses code reason exc)
  unfolding send_error
  send_error-Sound code reason exc =
      search (preserves_rules, finish-Sound, clear-Sound, write-Sound, status-Sound) depth 30

  command-Sound : (c : Command) → Sound (command responses c)
  unfolding command
  command-Sound (Command.finish_with o) = finish-Sound o
  command-Sound (Command.write_chunk c) = write-Sound c
  command-Sound (Command.status n r) = status-Sound n r
  command-Sound (Command.error n r) = send_error-Sound n r none
  command-Sound (Command.header k v) = header-Sound k v

  perform-Sound : (p : Program) → Sound (perform responses p)
  unfolding perform
  perform-Sound skip = Preserves-pure tt
  perform-Sound (fail x) = Preserves-throw x
  perform-Sound (run c) = command-Sound c
  perform-Sound (seq p q) =
      Preserves-bind (perform responses p) (λ u. perform responses q) (perform-Sound p)
        (λ u. perform-Sound q)
  perform-Sound (guard p q) =
      Preserves-catch (perform responses p) (λ x. perform responses q) (perform-Sound p)
        (λ x. perform-Sound q)

  call_method-Sound :
      (methods : Method → Option Program) (m : Method) (finished : Bool)
      → Sound (call_method responses methods m finished)
  unfolding call_method
  call_method-Sound methods m finished =
      search (preserves_rules, perform-Sound, status-Sound, finish_once-Sound) depth 30

  attempt-Sound :
      (prepare : Program) (methods : Method → Option Program) (m : Method)
      → Sound (attempt responses prepare methods m)
  unfolding attempt
  attempt-Sound prepare methods m =
      search (preserves_rules, perform-Sound, call_method-Sound) depth 30

  recover-Sound : (x : Error) → Sound (recover responses x)
  unfolding recover
  recover-Sound x = search (preserves_rules, send_error-Sound) depth 30

  pub execute-Sound :
      (prepare : Program) (methods : Method → Option Program) (m : Method)
      → Sound (execute responses prepare methods m)
  unfolding execute
  execute-Sound prepare methods m = search (preserves_rules, attempt-Sound, recover-Sound)
