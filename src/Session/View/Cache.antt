-- ===== src/Session/View/Cache.antt =====
-- The presence frames that an account of src/pyconduit/session/account.py keeps for the tabs to come.
use pyconduit.Base.{
  String, string_eq, ◌==◌, List, [], ◌∷◌, ◌≡◌, ◌∙◌, All, arith, Bool-cases, inl, inr,
}
use pyconduit.Base.Dict
use pyconduit.Base.Dict.{Dict}
use pyconduit.Json.{Json}
use pyconduit.Interface.{Notice, disconnected, presence_update, roster_snapshot, muc_occupants}
use pyconduit.Session.World.{
  Env, W, Subscriber, AuditEntry, send, send_or_drop, send_to, broadcast, log, schedule_reconnect,
}
use pyconduit.Session.Events.{on_notice}
use pyconduit.Session.Kept.{Moves, Keeps, Rules}
use pyconduit.Session.Kept.Rooms.{remember_room-Keeps, forget_room-Keeps, forget_occupants-Keeps}
use pyconduit.Session.Kept.Frames.{text_at}
use pyconduit.Session.View.{server_presence-type, server_presence-jid}

-- A presence frame under the address that it is of.
pub record IsFiled (entry : String × Json) : Type 0 where
  pub is_presence : text_at "type" entry.1 ≡ "presence"
  pub of_jid : text_at "jid" entry.1 ≡ entry.0

put-IsFiled :
    (jid : String) (frame : Json) (d : Dict String Json)
    → IsFiled (jid, frame)
    → All IsFiled d
    → All IsFiled (Dict.put jid frame d)
unfolding Dict.put
put-IsFiled jid frame [] f h = (f, tt)
put-IsFiled jid frame ((k, v) ∷ d) f h = elim (Bool-cases (jid == k)) [
  | inl same ↦
      let e : jid ≡ k = ground arith in
      rw same (record { is_presence = f.is_presence; of_jid = f.of_jid ∙ e }, h.1)
  | inr other ↦ rw other (h.0, put-IsFiled jid frame d f h.1)
]

module _ (E : Env) where
  -- Every presence frame that is kept stands under its own address.
  pub record HasCache (w : W E) : Type 0 where
    pub filed : All IsFiled w.presence

  send_or_drop-HasCache :
      (s : Subscriber) (frame : Json) (w : W E) → HasCache w → HasCache (send_or_drop E s frame w)
  unfolding send_or_drop
  send_or_drop-HasCache s frame w h = elim (Bool-cases (E.accepts w.sent s frame)) [
    | inl taken ↦ rw taken (record { filed = h.filed })
    | inr dead ↦ rw dead (record { filed = h.filed })
  ]

  send_to-HasCache :
      (ss : List Subscriber) (frame : Json) (w : W E) → HasCache w → HasCache (send_to E ss frame w)
  unfolding send_to
  send_to-HasCache [] frame w h = h
  send_to-HasCache (s ∷ ss) frame w h =
      send_to-HasCache ss frame _ (send_or_drop-HasCache s frame w h)

  broadcast-HasCache : (frame : Json) (w : W E) → HasCache w → HasCache (broadcast E frame w)
  unfolding broadcast
  broadcast-HasCache frame w h = send_to-HasCache w.subscribers frame w h

  pub send-HasCache : (s : Subscriber) (frame : Json) → Keeps HasCache (send E s frame)
  unfolding send
  send-HasCache s frame = record {
    at = λ w h. elim (Bool-cases (E.accepts w.sent s frame)) [
      | inl taken ↦ rw taken (record { filed = h.filed })
      | inr dead ↦ rw dead h
    ];
  }

  schedule-HasCache : (w : W E) → HasCache w → HasCache (schedule_reconnect E w)
  unfolding schedule_reconnect
  schedule-HasCache w h = ground arith

  log-HasCache : (entry : AuditEntry) (w : W E) → HasCache w → HasCache (log E entry w)
  unfolding log
  log-HasCache entry w h = record { filed = h.filed }

  on_notice-HasCache : (n : Notice) (w : W E) → HasCache w → HasCache (on_notice E n w)
  unfolding on_notice
  on_notice-HasCache (disconnected reason) w h =
      schedule-HasCache _ (broadcast-HasCache _ _ (log-HasCache _ w h))
  on_notice-HasCache (presence_update p) w h = broadcast-HasCache _ _ (record {
    filed =
        put-IsFiled p.jid _ w.presence
          (record {
            is_presence = server_presence-type p.jid p.show p.status;
            of_jid = server_presence-jid p.jid p.show p.status;
          })
          h.filed;
  })
  on_notice-HasCache (roster_snapshot items) w h =
      broadcast-HasCache _ _ (record { filed = h.filed })
  on_notice-HasCache (muc_occupants m) w h = broadcast-HasCache _ _ (record { filed = h.filed })
  on_notice-HasCache _ w h = broadcast-HasCache _ w h

  pub HasCache-moves : Moves E HasCache
  HasCache-moves c w h = record { filed = h.filed }

  pub HasCache-rules : Rules E HasCache
  HasCache-rules = record {
    spreads = λ frame _. broadcast-HasCache frame;
    notices = on_notice-HasCache;
    requests = λ _ w. HasCache-moves _ w;
    logs = log-HasCache;
    schedules = schedule-HasCache;
    joins =
        λ room nick _. remember_room-Keeps E (λ rooms w h. record { filed = h.filed }) room nick;
    leaves = forget_room-Keeps E (λ rooms w h. record { filed = h.filed });
    empties = forget_occupants-Keeps E (λ occupants w h. record { filed = h.filed });
  }
