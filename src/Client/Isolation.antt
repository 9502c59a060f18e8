-- ===== src/Client/Isolation.antt =====
-- Requests of one client do not disturb one another, in whatever order their messages come.
use py_qgis_server.Prelude.{
  ◌≡◌, refl, sym, ◌∙◌, Bytes, Option, none, some, List, [], ◌∷◌, arith, string_eq, ◌==◌, ==_iff,
  ==_self, if◌then◌else◌, Option-cases, inl, inr, Result, ok, raise,
}
use py_qgis_server.Dict.{get}
use py_qgis_server.Dict.Laws.{get-put, get-remove}
use py_qgis_server.Client.{
  Handler, Handlers, Message, Error, deliver, is_done, after_delivery, receive, poll, give_up,
}

-- What a message of its own does to one request: gone once it is done.
abbrev pub kept : Result Error (Unit {0}) × Handler → Option Handler
kept (raise x, h) = some h
kept (ok _, h) = if is_done h then none else some h

abbrev pub track : Option Handler → Message → Option Handler
track none m = none
track (some h) m = kept (deliver m h)

abbrev pub tracks : Option Handler → List Message → Option Handler
tracks o [] = o
tracks o (m ∷ ms) = tracks (track o m) ms

-- The messages of one request.
abbrev pub own : Bytes → List Message → List Message
own c [] = []
own c (m ∷ ms) = if m.correlation_id == c then m ∷ own c ms else own c ms

get-after_delivery :
    (c j : Bytes) (hs : Handlers) (r : Result Error (Unit {0}) × Handler)
    → get j (after_delivery c hs r) ≡ (if c == j then kept r else get j hs)
unfolding after_delivery
get-after_delivery c j hs (raise x, h) = get-put c j h hs
get-after_delivery c j hs (ok u, h) = ground (arith, get-put c j h hs, get-remove c j hs)

-- A message changes the request that it names, as that request alone decides, and no other one.
pub get-receive :
    (m : Message) (j : Bytes) (hs : Handlers)
    → get j (receive m hs) ≡ (if m.correlation_id == j then track (get j hs) m else get j hs)
unfolding receive
get-receive m j hs = elim (Option-cases (get m.correlation_id hs)) [
  | inl unknown ↦ rw (unknown, receive) (ground (arith, ==_iff m.correlation_id j))
  | inr (h, known) ↦
      rw (known, receive)
        (rw (get-after_delivery m.correlation_id j hs (deliver m h))
          (ground (arith, ==_iff m.correlation_id j)))
]

tracks-none : (ms : List Message) → tracks none ms ≡ none
tracks-none [] = refl
tracks-none (m ∷ ms) = tracks-none ms

-- After any messages read by the poll loop, a request is in the state that its own messages give,
-- whatever the others are and however they are interleaved.
pub get-poll :
    (c : Bytes) (ms : List Message) (hs : Handlers)
    → get c (poll ms hs).1 ≡ tracks (get c hs) (own c ms)
unfolding poll get
get-poll c [] hs = refl
get-poll c (m ∷ ms) [] = sym (tracks-none (own c (m ∷ ms)))
get-poll c (m ∷ ms) (e ∷ hs) =
    get-poll c ms (receive m (e ∷ hs)) ∙ rw (get-receive m c (e ∷ hs)) (ground arith)

-- A request that was given up stays forgotten: no later message brings it back.
pub poll-give_up :
    (c : Bytes) (ms : List Message) (hs : Handlers) → get c (poll ms (give_up c hs)).1 ≡ none
poll-give_up c ms hs =
    let gone : get c (give_up c hs) ≡ none =
      unfold give_up in (get-remove c c hs ∙ rw ==_self refl) in
    get-poll c ms (give_up c hs) ∙ rw gone (tracks-none (own c ms))
