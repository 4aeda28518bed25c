-- ===== src/Session/Events.antt =====
-- src/pyconduit/session/account.py: `_on_event`, and the calls of the client around it.
use pyconduit.Base.{string_eq, List, [], ◌∷◌, map}
use Prim.Native.String.{◌++◌}
use pyconduit.Base.Dict
use pyconduit.Base.Dict.{Dict}
use pyconduit.Json.{Json, null, str, object, json_eq}
use pyconduit.Errors.{ok}
use pyconduit.Protocol.Frames.{
  server_error, server_message, server_presence, server_roster, server_subscription_request,
  server_muc_joined, server_muc_message, server_muc_occupants, server_muc_presence,
}
use pyconduit.Interface.{
  Notice, disconnected, incoming_message, delivery_failure, presence_update, roster_snapshot,
  subscription_request, muc_joined, muc_message, muc_occupants, muc_presence, Event, connected,
  notice, Reply, RosterItem,
}
use pyconduit.Session.World.{
  Env, W, Action, ◌>>◌, run, answer_of, broadcast, log, schedule_reconnect, xmpp_connect,
  xmpp_disconnect,
}

-- `{"jid": i.jid, "name": i.name, "subscription": i.subscription}`
abbrev pub contact : RosterItem → Json
contact i =
    object (("jid", str i.jid) ∷ ("name", str i.name) ∷ ("subscription", str i.subscription) ∷ [])

module _ (E : Env) where
  -- The branches of `_on_event` that call no client.
  unfoldable pub on_notice : Notice → W E → W E
  on_notice (disconnected reason) w = schedule_reconnect E (
      broadcast E (server_error "connection" "Chat server connection lost; reconnecting…" null)
        (log E (xmpp_disconnect w.jid reason) w))
  on_notice (incoming_message m) w =
      broadcast E
        (server_message (str m.from_jid) m.from_jid (str m.to_jid) (str m.body) m.msg_id m.timestamp
          "incoming")
        w
  on_notice (delivery_failure f) w =
      broadcast E
        (server_error "delivery"
          ("Message to " ++ (f.to_jid ++ (" could not be delivered: " ++ f.error))) (str f.to_jid))
        w
  on_notice (presence_update p) w =
      let frame = server_presence p.jid p.show p.status in
      broadcast E frame (record w { presence = Dict.put p.jid frame w.presence })
  on_notice (roster_snapshot items) w =
      let contacts = map contact items in
      broadcast E (server_roster contacts) (record w { roster = contacts })
  on_notice (subscription_request from_jid) w = broadcast E (server_subscription_request from_jid) w
  on_notice (muc_joined m) w = broadcast E (server_muc_joined (str m.room) m.nick m.subject) w
  on_notice (muc_message m) w =
      broadcast E
        (server_muc_message m.room m.nick m.body m.msg_id m.timestamp m.is_self m.mentions_me) w
  on_notice (muc_occupants m) w =
      broadcast E (server_muc_occupants (str m.room) m.occupants)
        (record w { muc_rosters = Dict.put (str m.room) m.occupants w.muc_rosters })
  on_notice (muc_presence m) w = broadcast E (server_muc_presence m.room m.nick m.joined) w

  unfoldable pub on_notices : List Notice → W E → W E
  on_notices [] w = w
  on_notices (n ∷ ns) w = on_notices ns (on_notice n w)

  -- A call of the client: what it lets through is handled before it returns.
  unfoldable pub call : {A : Type 0} → (E.xmpp.State → Reply Notice E.xmpp.State A) → Action (W E) A
  call op w =
      let r = op w.client in
      (answer_of r.outcome, on_notices r.events (record w { client = r.state }))

  -- `for room, nick in …: try: await self._client.join_room(room, nick) except Exception: pass`
  unfoldable pub rejoin : Dict Json Json → W E → W E
  rejoin [] w = w
  rejoin ((room, nick) ∷ rooms) w = rejoin rooms (call (E.xmpp.join_room room nick) w).1

  unfoldable pub on_event : Event → Action (W E) (Unit {0})
  on_event (notice n) w = (ok tt, on_notice n w)
  on_event (connected _) w =
      (do
        run (log E (xmpp_connect w.jid))
        call (E.xmpp.set_presence (str "online") null)
        λ w'. (ok tt, rejoin w'.joined_rooms w'))
        w

  -- The client's own task sees what a handler raises, not the one that called `connect`.
  unfoldable pub on_events : List Event → W E → W E
  on_events [] w = w
  on_events (e ∷ es) w = on_events es (on_event e w).1

  -- `await self._client.connect()`
  unfoldable pub connect : Action (W E) (Unit {0})
  connect w =
      let r = E.xmpp.connect w.client in
      (answer_of r.outcome, on_events r.events (record w { client = r.state }))
