-- ===== src/Session/Served.antt =====
-- Whether an account of src/pyconduit/session/account.py is served: closing, without tabs, connected,
-- or about to connect.
pub mod Steps
use pyconduit.Base.{
  String, Bool, true, ◌||◌, is_empty, List, [], ◌∷◌, ◌≡◌, refl, ◌∙◌, arith, Bool-cases, inl, inr,
}
use pyconduit.Json.{Json}
use pyconduit.Interface.{
  Answer, done, failed, Event, Notice, disconnected, presence_update, roster_snapshot,
  muc_occupants,
}
use pyconduit.Session.World.{
  Env, W, Subscriber, subscriber_eq, AuditEntry, discard, send, send_or_drop, send_to, broadcast,
  log, schedule_reconnect, answer_of, cancel_idle, start_idle_timer, is_pending, ReconnectTask,
  absent, finished, looping, sleeping,
}
use pyconduit.Session.Events.{on_notice, on_events, connect, call}
use pyconduit.Session.Account.{
  attach, detach, start_if_empty, send_all, ensure_connected, after_connect,
}
use pyconduit.Session.Lifecycle.{
  reconnect_step, reconnect_from, reconnect_test, reconnect_wake, retried, begin_close, close,
  idle_expire, expire_empty,
}
use pyconduit.Session.Kept.{Keeps, Keeps-then, Keeps-run, Rules, IsRequest}
use pyconduit.Session.Kept.Rooms.{remember_room-Keeps, forget_room-Keeps, forget_occupants-Keeps}
use pyconduit.Session.Kept.Calls.{on_notices-Keeps, on_events-Keeps}
use pyconduit.Session.Rejoin.{IsAside, on_notice-IsAside, broadcast-IsAside, schedule-IsAside}
use pyconduit.Socket.Pump.{on_frame}
use pyconduit.Socket.Reading.{on_frame-Keeps}

module _ (E : Env) where
  abbrev served : W E → Bool
  served w =
      w.closing
      || (is_empty w.subscribers || (E.xmpp.is_connected w.client || is_pending E w.reconnect_task))

  pub record IsServed (w : W E) : Type 0 where
    pub at : served w ≡ true

  pub same-IsServed :
      (v w : W E)
      → w.closing ≡ v.closing
      → w.subscribers ≡ v.subscribers
      → w.client ≡ v.client
      → w.reconnect_task ≡ v.reconnect_task
      → IsServed v
      → IsServed w
  same-IsServed v w a b c d h = record { at = rw (a, b, c, d) h.at }

  is_empty-discard :
      (s : Subscriber) (ss : List Subscriber) → is_empty ss ≡ true → is_empty (discard s ss) ≡ true
  unfolding discard
  is_empty-discard s [] e = refl
  is_empty-discard s (t ∷ ss) e = absurd (cc)

  pub dropped-IsServed :
      (s : Subscriber) (w : W E)
      → IsServed w
      → IsServed (record w { subscribers = discard s w.subscribers })
  dropped-IsServed s w h = record { at = ground (arith, h.at, is_empty-discard s w.subscribers) }

  send_or_drop-IsServed :
      (s : Subscriber) (frame : Json) (w : W E) → IsServed w → IsServed (send_or_drop E s frame w)
  unfolding send_or_drop
  send_or_drop-IsServed s frame w h = elim (Bool-cases (E.accepts w.sent s frame)) [
    | inl taken ↦ rw taken (same-IsServed w _ refl refl refl refl h)
    | inr dead ↦ rw dead (dropped-IsServed s w h)
  ]

  send_to-IsServed :
      (ss : List Subscriber) (frame : Json) (w : W E) → IsServed w → IsServed (send_to E ss frame w)
  unfolding send_to
  send_to-IsServed [] frame w h = h
  send_to-IsServed (s ∷ ss) frame w h =
      send_to-IsServed ss frame (send_or_drop E s frame w) (send_or_drop-IsServed s frame w h)

  pub broadcast-IsServed : (frame : Json) (w : W E) → IsServed w → IsServed (broadcast E frame w)
  unfolding broadcast
  broadcast-IsServed frame w h = send_to-IsServed w.subscribers frame w h

  pub send-IsServed : (s : Subscriber) (frame : Json) → Keeps IsServed (send E s frame)
  unfolding send
  send-IsServed s frame = record {
    at = λ w h. elim (Bool-cases (E.accepts w.sent s frame)) [
      | inl taken ↦ rw taken (same-IsServed w _ refl refl refl refl h)
      | inr dead ↦ rw dead h
    ];
  }

  pub log-IsServed : (entry : AuditEntry) (w : W E) → IsServed w → IsServed (log E entry w)
  unfolding log
  log-IsServed entry w h = same-IsServed w _ refl refl refl refl h

  -- Whatever it was before.
  pub schedule-serves : (w : W E) → IsServed (schedule_reconnect E w)
  unfolding schedule_reconnect
  schedule-serves w = record { at = ground arith }

  on_notice-IsServed : (n : Notice) (w : W E) → IsServed w → IsServed (on_notice E n w)
  unfolding on_notice
  on_notice-IsServed (disconnected reason) w h = schedule-serves _
  on_notice-IsServed (presence_update p) w h =
      broadcast-IsServed _ _ (same-IsServed w _ refl refl refl refl h)
  on_notice-IsServed (roster_snapshot items) w h =
      broadcast-IsServed _ _ (same-IsServed w _ refl refl refl refl h)
  on_notice-IsServed (muc_occupants m) w h =
      broadcast-IsServed _ _ (same-IsServed w _ refl refl refl refl h)
  on_notice-IsServed _ w h = broadcast-IsServed _ w h

  -- What is asked of the client: no request but `connect` and `disconnect` changes whether it is
  -- connected, and a `connect` that returns leaves it connected.
  pub record IsSteady : Type 0 where
    pub requests :
        {f : E.xmpp.State → E.xmpp.State}
        → IsRequest E f
        → (c : E.xmpp.State) → E.xmpp.is_connected (f c) ≡ E.xmpp.is_connected c
    pub connects :
        (c : E.xmpp.State)
        → (E.xmpp.connect c).outcome ≡ done tt
        → E.xmpp.is_connected (E.xmpp.connect c).state ≡ true

  module _ (steady : IsSteady) where
    pub IsServed-rules : Rules E IsServed
    IsServed-rules = record {
      spreads = λ frame _. broadcast-IsServed frame;
      notices = on_notice-IsServed;
      requests = λ asked w h. record { at = rw (steady.requests asked w.client) h.at };
      logs = log-IsServed;
      schedules = λ w _. schedule-serves w;
      joins = λ room nick _.
          remember_room-Keeps E (λ rooms w h. same-IsServed w _ refl refl refl refl h) room nick;
      leaves = forget_room-Keeps E (λ rooms w h. same-IsServed w _ refl refl refl refl h);
      empties = forget_occupants-Keeps E (λ occupants w h. same-IsServed w _ refl refl refl refl h);
    }

  -- Whatever it was before.
  pub lost-serves : (reason : String) (w : W E) → IsServed (on_notice E (disconnected reason) w)
  unfolding on_notice
  lost-serves reason w = schedule-serves _
