-- ===== src/Session/Rejoin.antt =====
-- The rooms that `_on_event` of src/pyconduit/session/account.py joins again once its client is
-- connected.
use pyconduit.Base.{String, List, [], ◌∷◌, ◌≡◌, refl, ap, ◌∙◌, Bool-cases, inl, inr, arith}
use pyconduit.Base.Dict.{Dict}
use pyconduit.Json.{Json, str, null}
use pyconduit.Errors.{ok}
use pyconduit.Interface.{
  Answer, done, failed, Reply, Notice, connected, disconnected, presence_update, roster_snapshot,
  muc_occupants,
}
use pyconduit.Session.World.{
  Env, W, Subscriber, log, broadcast, send_to, send_or_drop, schedule_reconnect, answer_of,
  xmpp_connect, resume,
}
use pyconduit.Session.Events.{call, on_notice, on_notices, rejoin, on_event}

module _ (E : Env) where
  module _ (c : E.xmpp.State) (rooms : Dict Json Json) where
    -- What the client's events leave alone.
    pub record IsAside (w : W E) : Type 0 where
      pub client : w.client ≡ c
      pub joined : w.joined_rooms ≡ rooms

    same-IsAside :
        (v w : W E) → w.client ≡ v.client → w.joined_rooms ≡ v.joined_rooms → IsAside v → IsAside w
    same-IsAside v w a b h = record { client = a ∙ h.client; joined = b ∙ h.joined }

    send_to-IsAside :
        (ss : List Subscriber) (frame : Json) (w : W E) → IsAside w → IsAside (send_to E ss frame w)
    unfolding send_to send_or_drop
    send_to-IsAside [] frame w h = h
    send_to-IsAside (s ∷ ss) frame w h =
        send_to-IsAside ss frame (send_or_drop E s frame w)
          (elim (Bool-cases (E.accepts w.sent s frame)) [
            | inl taken ↦ rw taken (same-IsAside w _ refl refl h)
            | inr dead ↦ rw dead (same-IsAside w _ refl refl h)
          ])

    pub broadcast-IsAside : (frame : Json) (w : W E) → IsAside w → IsAside (broadcast E frame w)
    unfolding broadcast
    broadcast-IsAside frame w h = send_to-IsAside w.subscribers frame w h

    pub schedule-IsAside : (w : W E) → IsAside w → IsAside (schedule_reconnect E w)
    unfolding schedule_reconnect
    schedule-IsAside w h = ground arith

    pub on_notice-IsAside : (n : Notice) (w : W E) → IsAside w → IsAside (on_notice E n w)
    unfolding on_notice log
    on_notice-IsAside (disconnected reason) w h =
        schedule-IsAside _ (broadcast-IsAside _ _ (same-IsAside w _ refl refl h))
    on_notice-IsAside (presence_update p) w h = broadcast-IsAside _ _ (same-IsAside w _ refl refl h)
    on_notice-IsAside (roster_snapshot items) w h =
        broadcast-IsAside _ _ (same-IsAside w _ refl refl h)
    on_notice-IsAside (muc_occupants m) w h = broadcast-IsAside _ _ (same-IsAside w _ refl refl h)
    on_notice-IsAside _ w h = broadcast-IsAside _ w h

    on_notices-IsAside : (ns : List Notice) (w : W E) → IsAside w → IsAside (on_notices E ns w)
    unfolding on_notices
    on_notices-IsAside [] w h = h
    on_notices-IsAside (n ∷ ns) w h =
        on_notices-IsAside ns (on_notice E n w) (on_notice-IsAside n w h)

  call-IsAside :
      {A : Type 0} (op : E.xmpp.State → Reply Notice E.xmpp.State A) (w : W E)
      → IsAside (op w.client).state w.joined_rooms (call E op w).1
  unfolding call
  call-IsAside op w =
      on_notices-IsAside (op w.client).state w.joined_rooms (op w.client).events
        (record w { client = (op w.client).state }) (record { client = refl; joined = refl })

  -- A client that has been asked for each room in turn, whatever it answered.
  abbrev pub asked_for : Dict Json Json → E.xmpp.State → E.xmpp.State
  asked_for [] c = c
  asked_for ((room, nick) ∷ rooms) c = asked_for rooms (E.xmpp.join_room room nick c).state

  rejoin-asked_for :
      (rooms : Dict Json Json) (w : W E)
      → IsAside (asked_for rooms w.client) w.joined_rooms (rejoin E rooms w)
  unfolding rejoin
  rejoin-asked_for [] w = record { client = refl; joined = refl }
  rejoin-asked_for ((room, nick) ∷ rooms) w =
      let asked = call-IsAside (E.xmpp.join_room room nick) w in
      let rest = rejoin-asked_for rooms (call E (E.xmpp.join_room room nick) w).1 in
      record {
        client = rest.client ∙ ap (asked_for rooms) asked.client;
        joined = rest.joined ∙ asked.joined;
      }

  -- After the presence that opens a session: a raise ends the handler.
  abbrev pub asked_after : Answer (Unit {0}) → Dict Json Json → E.xmpp.State → E.xmpp.State
  asked_after (done _) rooms c = asked_for rooms c
  asked_after (failed _) rooms c = c

  rejoined-IsAside :
      (o : Answer (Unit {0})) (c : E.xmpp.State) (rooms : Dict Json Json) (w : W E)
      → IsAside c rooms w
      → IsAside
          (asked_after o rooms c)
          rooms
          (resume (answer_of o, w) (λ _ v. (ok tt, rejoin E v.joined_rooms v))).1
  rejoined-IsAside (done _) c rooms w h =
      let again = rejoin-asked_for w.joined_rooms w in
      record {
        client =
            again.client
            ∙ ap (λ rs. asked_for rs w.client) h.joined
            ∙ ap (asked_for rooms) h.client;
        joined = again.joined ∙ h.joined;
      }
  rejoined-IsAside (failed _) c rooms w h = h

  -- When its client is connected, the account sends its presence and then asks the client for each
  -- room that it remembers, once and in their order, whatever the requests answer or raise; it asks
  -- for none where the presence raises. It remembers the same rooms after it.
  pub on_event-rejoins :
      (jid : String) (w : W E)
      → let r = E.xmpp.set_presence (str "online") null w.client in
        ((on_event E (connected jid) w).1.client ≡ asked_after r.outcome w.joined_rooms r.state)
        × ((on_event E (connected jid) w).1.joined_rooms ≡ w.joined_rooms)
  unfolding on_event log call
  on_event-rejoins jid w =
      let r = E.xmpp.set_presence (str "online") null w.client in
      let opened = log E (xmpp_connect w.jid) w in
      let h =
        rejoined-IsAside r.outcome r.state w.joined_rooms
          (call E (E.xmpp.set_presence (str "online") null) opened).1
          (call-IsAside (E.xmpp.set_presence (str "online") null) opened) in
      (h.client, h.joined)
