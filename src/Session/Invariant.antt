-- ===== src/Session/Invariant.antt =====
-- What every coroutine of src/pyconduit/session/account.py keeps.
pub mod Rooms
pub mod Coroutines
use pyconduit.Base.{
  Bool, true, false, List, [], ◌∷◌, ◌++◌, ◌≡◌, refl, ap, ◌∙◌, arith, Bool-cases, inl, inr, map,
  String, string_eq, Option, none, some,
}
use pyconduit.Base.Dict
use pyconduit.Base.Dict.{Dict, UniqueKeys, AllKeys, put-UniqueKeys, pop-UniqueKeys}
use pyconduit.Json.{Json, json_eq, str, null}
use pyconduit.Errors.{Result, ok, raise}
use pyconduit.Protocol.Frames.{server_presence}
use pyconduit.Interface.{
  Notice, disconnected, incoming_message, delivery_failure, presence_update, roster_snapshot,
  subscription_request, muc_joined, muc_message, muc_occupants, muc_presence, Event, connected,
  notice, Reply, RosterItem,
}
use pyconduit.Session.World.{
  Env, World, W, Subscriber, AuditEntry, IdleTask, counting, no_timer, Action, resume, ◌>>=◌, ◌>>◌,
  lift, gets, pure, run, attempt, is_pending, send, send_or_drop, send_to, broadcast, log,
  schedule_reconnect, cancel_idle, start_idle_timer, discard, add,
}
use pyconduit.Session.Events.{on_notice, on_notices, call, rejoin, on_event, on_events, connect}
use pyconduit.Session.Account.{
  ensure_connected, send_all, after_connect, attach, detach, connect_failed, start_if_empty,
}
use pyconduit.Session.Kept.{Keeps, IsAllowed}
use pyconduit.Session.Broadcast.{Distinct, discard-Distinct, add-Distinct}

module _ (E : Env) (owner : String) (shut : Bool) where
  pub record Inv (w : W E) : Type 0 where
    -- The account stays that of its JID.
    pub own : w.jid ≡ owner
    -- Only `close` begins to close it, and nothing reopens it.
    pub phase : w.closing ≡ shut
    -- `_subscribers` is a set.
    pub distinct : Distinct w.subscribers
    -- The countdown runs only while no tab is attached.
    pub alone : w.idle_task ≡ counting → w.subscribers ≡ []
    -- A closing account has no reconnect task under way.
    pub settled : shut ≡ true → is_pending E w.reconnect_task ≡ false
    -- Every room that is joined, and so rejoined, passes the allowlist.
    pub allowed : AllKeys (IsAllowed E) w.joined_rooms
    -- Dicts have each key once.
    pub presence_keys : UniqueKeys w.presence
    pub room_keys : UniqueKeys w.joined_rooms
    pub occupant_keys : UniqueKeys w.muc_rosters

  pub told-Inv :
      (w : W E) (sent : List (Subscriber × Json)) → Inv w → Inv (record w { sent = sent })
  told-Inv w sent h = ground arith

  discard-nil : (s : Subscriber) (xs : List Subscriber) → xs ≡ [] → discard s xs ≡ []
  unfolding discard
  discard-nil s [] e = refl
  discard-nil s (x ∷ xs) e = cc

  pub dropped-Inv :
      (s : Subscriber) (w : W E) → Inv w → Inv (record w { subscribers = discard s w.subscribers })
  dropped-Inv s w h = record {
    own = h.own;
    phase = h.phase;
    distinct = discard-Distinct s w.subscribers h.distinct;
    alone = λ e. discard-nil s w.subscribers (h.alone e);
    settled = h.settled;
    allowed = h.allowed;
    presence_keys = h.presence_keys;
    room_keys = h.room_keys;
    occupant_keys = h.occupant_keys;
  }

  send_or_drop-Inv :
      (s : Subscriber) (frame : Json) (w : W E) → Inv w → Inv (send_or_drop E s frame w)
  unfolding send_or_drop
  send_or_drop-Inv s frame w h = elim (Bool-cases (E.accepts w.sent s frame)) [
    | inl taken ↦ rw taken (told-Inv w _ h)
    | inr dead ↦ rw dead (dropped-Inv s w h)
  ]

  send_to-Inv : (ss : List Subscriber) (frame : Json) (w : W E) → Inv w → Inv (send_to E ss frame w)
  unfolding send_to
  send_to-Inv [] frame w h = h
  send_to-Inv (s ∷ ss) frame w h = send_to-Inv ss frame _ (send_or_drop-Inv s frame w h)

  pub broadcast-Inv : (frame : Json) (w : W E) → Inv w → Inv (broadcast E frame w)
  unfolding broadcast
  broadcast-Inv frame w h = send_to-Inv w.subscribers frame w h

  pub send-Inv : (s : Subscriber) (frame : Json) → Keeps Inv (send E s frame)
  unfolding send
  send-Inv s frame = record {
    at = λ w h. elim (Bool-cases (E.accepts w.sent s frame)) [
      | inl taken ↦ rw taken (told-Inv w _ h)
      | inr dead ↦ rw dead h
    ];
  }

  pub log-Inv : (entry : AuditEntry) (w : W E) → Inv w → Inv (log E entry w)
  unfolding log
  log-Inv entry w h = ground arith

  pub schedule_reconnect-Inv : (w : W E) → Inv w → Inv (schedule_reconnect E w)
  unfolding schedule_reconnect
  schedule_reconnect-Inv w h = ground arith

  put_presence-Inv :
      (k : String) (v : Json) (w : W E)
      → Inv w
      → Inv (record w { presence = Dict.put k v w.presence })
  put_presence-Inv k v w h = record {
    own = h.own;
    phase = h.phase;
    distinct = h.distinct;
    alone = h.alone;
    settled = h.settled;
    allowed = h.allowed;
    presence_keys = put-UniqueKeys k v w.presence h.presence_keys;
    room_keys = h.room_keys;
    occupant_keys = h.occupant_keys;
  }

  put_occupants-Inv :
      (k : Json) (v : List Json) (w : W E)
      → Inv w
      → Inv (record w { muc_rosters = Dict.put k v w.muc_rosters })
  put_occupants-Inv k v w h = record {
    own = h.own;
    phase = h.phase;
    distinct = h.distinct;
    alone = h.alone;
    settled = h.settled;
    allowed = h.allowed;
    presence_keys = h.presence_keys;
    room_keys = h.room_keys;
    occupant_keys = put-UniqueKeys k v w.muc_rosters h.occupant_keys;
  }

  pub on_notice-Inv : (n : Notice) (w : W E) → Inv w → Inv (on_notice E n w)
  unfolding on_notice
  on_notice-Inv (disconnected reason) w h =
      schedule_reconnect-Inv _ (broadcast-Inv _ _ (log-Inv _ w h))
  on_notice-Inv (presence_update p) w h = broadcast-Inv _ _ (put_presence-Inv _ _ w h)
  on_notice-Inv (roster_snapshot items) w h = broadcast-Inv _ _ (ground arith)
  on_notice-Inv (muc_occupants m) w h = broadcast-Inv _ _ (put_occupants-Inv _ _ w h)
  on_notice-Inv _ w h = broadcast-Inv _ w h

  pub client-Inv : (c : E.xmpp.State) (w : W E) → Inv w → Inv (record w { client = c })
  client-Inv c w h = ground arith
