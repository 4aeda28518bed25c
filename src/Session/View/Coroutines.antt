-- ===== src/Session/View/Coroutines.antt =====
-- The coroutines of src/pyconduit/session/account.py keep an attached tab's view and what the account
-- knows together.
use pyconduit.Base.{◌||◌, List, is_empty, ◌≡◌, true, Bool-cases, inl, inr}
use pyconduit.Json.{Json}
use pyconduit.Protocol.Frames.{server_presence}
use pyconduit.Interface.{
  Notice, disconnected, incoming_message, delivery_failure, presence_update, roster_snapshot,
  subscription_request, muc_joined, muc_message, muc_occupants, muc_presence,
}
use pyconduit.Session.World.{
  Env, W, Subscriber, subscriber_eq, AuditEntry, broadcast, log, schedule_reconnect, is_pending,
}
use pyconduit.Session.Events.{on_notice}
use pyconduit.Session.Kept.{Moves, Rules}
use pyconduit.Session.Kept.Rooms.{remember_room-Keeps, forget_room-Keeps, forget_occupants-Keeps}
use pyconduit.Session.Kept.Frames.{
  is_other, server_error-other, server_message-other, server_subscription_request-other,
  server_muc_joined-other, server_muc_message-other, server_muc_occupants-other,
  server_muc_presence-other,
}
use pyconduit.Session.View.{View, server_presence-type, server_presence-jid}
use pyconduit.Session.View.Follows.{
  Follows, IsClosed, spread-Follows, presence-Follows, roster-Follows,
}

module _ (E : Env) (sub : Subscriber) (R : View → View → Type 0)
    (takes : (sent : List (Subscriber × Json)) (frame : Json) → E.accepts sent sub frame ≡ true)
    (closed : IsClosed R) where
  abbrev F : W E → Type 0
  F w = Follows E sub R w

  schedule-Follows : (w : W E) → F w → F (schedule_reconnect E w)
  unfolding schedule_reconnect
  schedule-Follows w h = elim (Bool-cases (is_pending E w.reconnect_task)) [
    | inl pending ↦ rw pending h
    | inr idle ↦ rw idle (elim (Bool-cases (w.closing || is_empty w.subscribers)) [
      | inl over ↦ rw over h
      | inr on ↦ rw on (record { attached = h.attached; related = h.related })
    ])
  ]

  log-Follows : (entry : AuditEntry) (w : W E) → F w → F (log E entry w)
  unfolding log
  log-Follows entry w h = record { attached = h.attached; related = h.related }

  spread : (frame : Json) → is_other frame ≡ true → (w : W E) → F w → F (broadcast E frame w)
  spread frame other w h = spread-Follows E sub R takes frame other w h

  on_notice-Follows : (n : Notice) (w : W E) → F w → F (on_notice E n w)
  unfolding on_notice
  on_notice-Follows (disconnected reason) w h =
      schedule-Follows _ (spread _ (server_error-other _ _ _) _ (log-Follows _ w h))
  on_notice-Follows (incoming_message m) w h = spread _ (server_message-other _ _ _ _ _ _ _) w h
  on_notice-Follows (delivery_failure f) w h = spread _ (server_error-other _ _ _) w h
  on_notice-Follows (presence_update p) w h =
      presence-Follows E sub R takes closed p.jid (server_presence p.jid p.show p.status) w
        (server_presence-type p.jid p.show p.status) (server_presence-jid p.jid p.show p.status) h
  on_notice-Follows (roster_snapshot items) w h = roster-Follows E sub R takes closed _ w h
  on_notice-Follows (subscription_request from_jid) w h =
      spread _ (server_subscription_request-other from_jid) w h
  on_notice-Follows (muc_joined m) w h = spread _ (server_muc_joined-other _ _ _) w h
  on_notice-Follows (muc_message m) w h = spread _ (server_muc_message-other _ _ _ _ _ _ _) w h
  on_notice-Follows (muc_occupants m) w h =
      spread _ (server_muc_occupants-other _ _) _
        (record { attached = h.attached; related = h.related })
  on_notice-Follows (muc_presence m) w h = spread _ (server_muc_presence-other _ _ _) w h

  pub Follows-moves : Moves E F
  Follows-moves c w h = record { attached = h.attached; related = h.related }

  pub Follows-rules : Rules E F
  Follows-rules = record {
    spreads = spread;
    notices = on_notice-Follows;
    requests = λ _ w. Follows-moves _ w;
    logs = log-Follows;
    schedules = schedule-Follows;
    joins = λ room nick _.
        remember_room-Keeps E (λ rooms w h. record { attached = h.attached; related = h.related })
          room nick;
    leaves =
        forget_room-Keeps E (λ rooms w h. record { attached = h.attached; related = h.related });
    empties =
        forget_occupants-Keeps E
          (λ occupants w h. record { attached = h.attached; related = h.related });
  }
