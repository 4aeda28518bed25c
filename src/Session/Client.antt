-- ===== src/Session/Client.antt =====
-- What becomes of the client of an account of src/pyconduit/session/account.py: which requests it is
-- asked, of all that a tab may send.
use pyconduit.Base.{Bool-cases, inl, inr, refl, sym, subst}
use pyconduit.Json.{Json}
use pyconduit.Session.World.{Env, W, Subscriber, log, send}
use pyconduit.Session.Kept.{Keeps, Rules, IsRequest}
use pyconduit.Session.Kept.Rooms.{remember_room-Keeps, forget_room-Keeps, forget_occupants-Keeps}
use pyconduit.Session.Rejoin.{IsAside, on_notice-IsAside, broadcast-IsAside, schedule-IsAside}
use pyconduit.Socket.Pump.{on_frame}
use pyconduit.Socket.Reading.{on_frame-Keeps}

module _ (E : Env) (Q : E.xmpp.State → Type 0) where
  abbrev OfClient : W E → Type 0
  OfClient w = Q w.client

  aside-OfClient : (w v : W E) → IsAside E w.client w.joined_rooms v → OfClient w → OfClient v
  aside-OfClient w v a h = subst Q (sym a.client) h

  unmoved : (w : W E) → IsAside E w.client w.joined_rooms w
  unmoved w = record { client = refl; joined = refl }

  -- What the requests keep of the client's state, everything keeps but connecting and closing.
  pub client-rules :
      ((f : E.xmpp.State → E.xmpp.State) → IsRequest E f → (c : E.xmpp.State) → Q c → Q (f c))
      → Rules E OfClient
  unfolding log
  client-rules asked = record {
    spreads = λ frame _ w h.
        aside-OfClient w _ (broadcast-IsAside E w.client w.joined_rooms frame w (unmoved w)) h;
    notices =
        λ n w h. aside-OfClient w _ (on_notice-IsAside E w.client w.joined_rooms n w (unmoved w)) h;
    requests = λ request w h. asked _ request w.client h;
    logs = λ entry w h. h;
    schedules =
        λ w h. aside-OfClient w _ (schedule-IsAside E w.client w.joined_rooms w (unmoved w)) h;
    joins = λ room nick _. remember_room-Keeps E (λ rooms w h. h) room nick;
    leaves = forget_room-Keeps E (λ rooms w h. h);
    empties = forget_occupants-Keeps E (λ occupants w h. h);
  }

  send-OfClient : (s : Subscriber) (frame : Json) → Keeps OfClient (send E s frame)
  unfolding send
  send-OfClient s frame = record {
    at = λ w h. elim (Bool-cases (E.accepts w.sent s frame)) [
      | inl taken ↦ rw taken h
      | inr dead ↦ rw dead h
    ];
  }

module _ (E : Env) where
  -- The client after some such requests, one after the other.
  pub data Asked (start : E.xmpp.State) : E.xmpp.State → Type 0 where
    nothing : Asked start start
    then_asks :
        {f : E.xmpp.State → E.xmpp.State}
        → IsRequest E f
        → (c : E.xmpp.State) → Asked start c
        → Asked start (f c)

  -- Whatever a tab sends, its frame takes the client only through requests, neither `connect` nor
  -- `disconnect` among them, in which each message to a contact or a room has a body whose length
  -- is within the configured limit, where one is set.
  pub on_frame-Asked :
      (s : Subscriber) (raw : Json) (w : W E) → Asked w.client (on_frame E s raw w).1.client
  on_frame-Asked s raw w =
      (on_frame-Keeps E s
          (client-rules E (Asked w.client) (λ f request c asked. then_asks request c asked))
          (λ frame _. send-OfClient E (Asked w.client) s frame) raw).at
        w nothing
