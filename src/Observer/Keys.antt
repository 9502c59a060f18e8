-- ===== src/Observer/Keys.antt =====
-- What the observers are told of one project, whatever the others do.
use mathlib.Core.List.{append_assoc, append-nil}
use py_qgis_server.Prelude.{
  ℕ, ltb, none, String, Bool, true, false, Option, some, List, [], ◌∷◌, ◌++◌, string_eq, ◌==◌,
  ==_iff, ◌≡◌, ◌∙◌, refl, sym, ap, arith, inl, inr, Bool-cases, if◌then◌else◌,
}
use py_qgis_server.Dict
use py_qgis_server.Dict.Laws.{get-put}
use py_qgis_server.Cache.{UpdateState, unchanged, inserted, updated}
use py_qgis_server.Observer.{
  is_inserted, Call, Server, Update, do_notify, notify_observers, receive, receive_all,
}

is_inserted_lem :
    (state : UpdateState) → is_inserted state ≡ elim state [ inserted ↦ true | _ ↦ false ]
unfolding is_inserted
is_inserted_lem unchanged = refl
is_inserted_lem inserted = refl
is_inserted_lem updated = refl

-- The messages, and the calls, about a key.
abbrev pub updates_of : String → List Update → List Update
updates_of k [] = []
updates_of k (u ∷ us) = if u.key == k then u ∷ updates_of k us else updates_of k us

abbrev pub calls_of : String → List Call → List Call
calls_of k [] = []
calls_of k (c ∷ cs) = if c.key == k then c ∷ calls_of k cs else calls_of k cs

-- One call of each observer, with the key and the time of a message, and whether the project is new.
abbrev pub told : List String → Update → List Call
told [] u = []
told (o ∷ os) u =
    record {
      observer = o;
      key = u.key;
      modified_time = u.modified_time;
      is_inserted = elim u.state [ inserted ↦ true | _ ↦ false ];
    }
    ∷ told os u

-- The calls for the messages about one key, after one of the time `last`, if there was one: for the
-- first message, and for each whose time is later than that of the one just before it.
abbrev pub ascents : List String → Option ℕ → List Update → List Call
ascents observers last [] = []
ascents observers none (u ∷ us) = told observers u ++ ascents observers (some u.modified_time) us
ascents observers (some last) (u ∷ us) =
    (if ltb last u.modified_time then told observers u else [])
    ++ ascents observers (some u.modified_time) us

notify_observers-told : (os : List String) (u : Update) → notify_observers os u ≡ told os u
unfolding notify_observers
notify_observers-told [] u = refl
notify_observers-told (o ∷ os) u = rw (notify_observers-told os u, is_inserted_lem u.state) refl

-- The time of an entry.
abbrev pub time_of : Option Update → Option ℕ
time_of none = none
time_of (some u) = some u.modified_time

-- What one message adds, as the code has it and as it is meant.
ascents-step :
    (os : List String) (last : Option Update) (u : Update) (us : List Update)
    → (if do_notify last u then notify_observers os u else [])
        ++ ascents os (some u.modified_time) us
      ≡ ascents os (time_of last) (u ∷ us)
unfolding do_notify
ascents-step os none u us = rw (notify_observers-told os u) refl
ascents-step os (some e) u us = rw (notify_observers-told os u) refl

calls_of-append :
    (k : String) (l r : List Call) → calls_of k (l ++ r) ≡ calls_of k l ++ calls_of k r
calls_of-append k [] r = refl
calls_of-append k (c ∷ l) r = ground (arith, calls_of-append k l r)

calls_of-same :
    (k : String) (os : List String) (u : Update)
    → (u.key == k) ≡ true
    → calls_of k (notify_observers os u) ≡ notify_observers os u
unfolding notify_observers
calls_of-same k [] u h = refl
calls_of-same k (o ∷ os) u h = rw (h, calls_of-same k os u h) refl

calls_of-other :
    (k : String) (os : List String) (u : Update)
    → (u.key == k) ≡ false
    → calls_of k (notify_observers os u) ≡ []
unfolding notify_observers
calls_of-other k [] u h = refl
calls_of-other k (o ∷ os) u h = rw (h, calls_of-other k os u h) refl

told_same :
    (k : String) (os : List String) (u : Update) (b : Bool)
    → (u.key == k) ≡ true
    → calls_of k (if b then notify_observers os u else [])
      ≡ (if b then notify_observers os u else [])
told_same k os u true h = calls_of-same k os u h
told_same k os u false h = refl

told_other :
    (k : String) (os : List String) (u : Update) (b : Bool)
    → (u.key == k) ≡ false
    → calls_of k (if b then notify_observers os u else []) ≡ []
told_other k os u true h = calls_of-other k os u h
told_other k os u false h = refl

-- Over any messages, in any interleaving of the projects, the calls about one project are those
-- that were made before and then, for its own messages in their order, one of each observer for the
-- first and for each one newer than the message about it just before.
pub calls_of-receive_all :
    (k : String) (us : List Update) (s : Server)
    → calls_of k (receive_all us s).calls
      ≡ calls_of k s.calls
        ++ ascents s.observers (time_of (Dict.get k s.last_updates)) (updates_of k us)
unfolding receive_all receive
calls_of-receive_all k [] s = sym (append-nil (calls_of k s.calls))
calls_of-receive_all k (u ∷ us) s =
    calls_of-receive_all k us (receive u s) ∙ elim (Bool-cases (u.key == k)) [
      | inl same ↦
          let g : Dict.get u.key s.last_updates ≡ Dict.get k s.last_updates =
            ap (λ j. Dict.get j s.last_updates) ((==_iff u.key k).0 same) in
          let b = do_notify (Dict.get u.key s.last_updates) u in
          let step = ascents-step s.observers (Dict.get k s.last_updates) u (updates_of k us) in
          rw (calls_of-append, told_same k s.observers u b same, get-put, same, append_assoc, g)
            (ap (λ l. calls_of k s.calls ++ l) step)
      | inr other ↦
          let b = do_notify (Dict.get u.key s.last_updates) u in
          rw (calls_of-append, told_other k s.observers u b other, get-put, other, append-nil) refl
    ]
