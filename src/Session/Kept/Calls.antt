-- ===== src/Session/Kept/Calls.antt =====
-- Calls of the client, its events, and connecting.
use pyconduit.Base.{List, [], ◌∷◌, Bool-cases, inl, inr}
use pyconduit.Base.Dict.{Dict}
use pyconduit.Json.{Json, str, null}
use pyconduit.Errors.{Result, ok, raise}
use pyconduit.Interface.{Notice, Event, connected, notice, Reply}
use pyconduit.Session.World.{Env, W}
use pyconduit.Session.Events.{on_notices, call, rejoin, on_event, on_events, connect}
use pyconduit.Session.Account.{ensure_connected, after_connect}
use pyconduit.Session.Kept.{Keeps, Keeps-bind, Rules, Moves, IsRequest, asks_room, asks_presence}
use pyconduit.Session.Kept.Frames.{server_error-other}

module _ {E : Env} {P : W E → Type 0} (r : Rules E P) where
  pub on_notices-Keeps : (ns : List Notice) (w : W E) → P w → P (on_notices E ns w)
  unfolding on_notices
  on_notices-Keeps [] w h = h
  on_notices-Keeps (n ∷ ns) w h = on_notices-Keeps ns _ (r.notices n w h)

  pub call-Keeps :
      {A : Type 0} (op : E.xmpp.State → Reply Notice E.xmpp.State A)
      → IsRequest E (λ c. (op c).state)
      → Keeps P (call E op)
  unfolding call
  call-Keeps op asked = record { at = λ w h. on_notices-Keeps _ _ (r.requests asked w h) }

  rejoin-Keeps : (rooms : Dict Json Json) (w : W E) → P w → P (rejoin E rooms w)
  unfolding rejoin
  rejoin-Keeps [] w h = h
  rejoin-Keeps ((room, nick) ∷ rooms) w h =
      rejoin-Keeps rooms _ ((call-Keeps (E.xmpp.join_room room nick) (asks_room room nick)).at w h)

  pub on_event-Keeps : (e : Event) → Keeps P (on_event E e)
  unfolding on_event
  on_event-Keeps (notice n) = record { at = r.notices n }
  on_event-Keeps (connected jid) = record {
    at = λ w h.
        (Keeps-bind
            (call-Keeps (E.xmpp.set_presence (str "online") null)
              (asks_presence (str "online") null))
            (λ _. record { at = λ w' q. rejoin-Keeps w'.joined_rooms w' q })).at
          _ (r.logs _ w h);
  }

  pub on_events-Keeps : (es : List Event) (w : W E) → P w → P (on_events E es w)
  unfolding on_events
  on_events-Keeps [] w h = h
  on_events-Keeps (e ∷ es) w h = on_events-Keeps es _ ((on_event-Keeps e).at w h)

  module _ (moves : Moves E P) where
    pub moved_call-Keeps :
        {A : Type 0} (op : E.xmpp.State → Reply Notice E.xmpp.State A) → Keeps P (call E op)
    unfolding call
    moved_call-Keeps op = record { at = λ w h. on_notices-Keeps _ _ (moves _ w h) }

    pub connect-Keeps : Keeps P (connect E)
    unfolding connect
    connect-Keeps = record { at = λ w h. on_events-Keeps _ _ (moves _ w h) }

    after_connect-Keeps : (a : Result (Unit {0}) × W E) → P a.1 → P (after_connect E a)
    after_connect-Keeps (ok _, w) h = h
    after_connect-Keeps (raise e, w) h =
        r.schedules _ (r.spreads _ (server_error-other _ _ _) _ (r.logs _ w h))

    pub ensure_connected-Keeps : (w : W E) → P w → P (ensure_connected E w)
    unfolding ensure_connected
    ensure_connected-Keeps w h = elim (Bool-cases (E.xmpp.is_connected w.client)) [
      | inl up ↦ rw up h
      | inr down ↦ rw down (after_connect-Keeps (connect E w) (connect-Keeps.at w h))
    ]
