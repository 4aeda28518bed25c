-- ===== src/Session/Commands.antt =====
-- src/pyconduit/session/account.py: the commands of a tab.
pub mod Disco
pub mod Sending
pub mod Rooms
pub mod Listing
use pyconduit.Base.{
  ℕ, String, string_eq, nat_eq, ◌==◌, Bool, true, false, List, [], ◌∷◌, map, none, some, Option,
  compare, Ordering, contains, if◌then◌else◌, not, ◌&&◌, is_empty,
}
use Prim.Native.String.{◌++◌}
use pyconduit.Base.Dict
use pyconduit.Base.Dict.{Dict}
use pyconduit.Base.Text.{before, after}
use pyconduit.Json.{Json, null, str, arr, obj, bool, array, object, json_eq, value_at, truthy, len}
use pyconduit.Errors.{Result, ok, raise, type_error, attribute_error}
use pyconduit.Protocol.{ClientMessage, require}
use pyconduit.Protocol.Frames.{
  server_error, server_message, server_history, server_muc_left, server_disco_servers,
}
use pyconduit.Interface.{ArchivedMessage, RoomEntry, DiscoveredRooms}
use pyconduit.Session.World.{
  Env, World, W, Subscriber, Action, ◌>>=◌, ◌>>◌, pure, lift, run, gets, attempt, send, broadcast,
}
use pyconduit.Session.Events.{call}
use pyconduit.Session.Account.{text_of}

abbrev pub ltb : ℕ → ℕ → Bool
ltb a b = elim (compare a b) [ Ordering.lt ↦ true | _ ↦ false ]

-- A dict key of any JSON value: a list or a dict is not hashable.
abbrev pub hashable : Json → Bool
hashable (arr xs) = false
hashable (obj fs) = false
hashable _ = true

-- `d[k] = v`
abbrev pub put_any {ℓ} : {V : Type ℓ} → Json → V → Dict Json V → Result (Dict Json V)
put_any k v d = if hashable k then ok (Dict.put k v d) else raise type_error

-- `d.pop(k, None)`: an empty dict does not hash the key.
abbrev pub pop_any {ℓ} : {V : Type ℓ} → Json → Dict Json V → Result (Dict Json V)
pop_any k [] = ok []
pop_any k (e ∷ d) = if hashable k then ok (Dict.pop k (e ∷ d)) else raise type_error

module _ (E : Env) where
  -- `_too_long`
  unfoldable pub too_long : Json → Json → Result (Option Json)
  too_long body conversation =
      if E.config.server.max_message_chars == 0 then ok none else elim (len body) [
        | none ↦ raise type_error
        | some n ↦
            if ltb E.config.server.max_message_chars n
            then ok (
                some (
                  server_error "delivery"
                    ("Message too long ("
                      ++ (E.python.digits n
                          ++ ("/"
                              ++ (E.python.digits E.config.server.max_message_chars
                                  ++ " characters)."))))
                    conversation))
            else ok none
      ]

  -- `room.split("@", 1)[-1].split("/", 1)[0].lower()`
  unfoldable pub room_domain : String → String
  room_domain room = E.python.lower (before b'/' (after b'@' room))

  -- `_room_domain_allowed`
  unfoldable pub room_domain_allowed : Json → Result Bool
  room_domain_allowed room =
      if is_empty E.config.muc.discovery_servers then ok true else elim room [
        | str r ↦ ok (contains (map E.python.lower E.config.muc.discovery_servers) (room_domain r))
        | _ ↦ raise attribute_error
      ]

  -- `self._joined_rooms.pop(room, None)`
  unfoldable pub forget_room : Json → Action (W E) (Unit {0})
  forget_room room w = elim (pop_any room w.joined_rooms) [
    | ok rooms ↦ (ok tt, record w { joined_rooms = rooms })
    | raise e ↦ (raise e, w)
  ]

  -- `self._muc_occupants.pop(room, None)`
  unfoldable pub forget_occupants : Json → Action (W E) (Unit {0})
  forget_occupants room w = elim (pop_any room w.muc_rosters) [
    | ok occupants ↦ (ok tt, record w { muc_rosters = occupants })
    | raise e ↦ (raise e, w)
  ]

  -- `self._joined_rooms[room] = nick`
  unfoldable pub remember_room : Json → Json → Action (W E) (Unit {0})
  remember_room room nick w = elim (put_any room nick w.joined_rooms) [
    | ok rooms ↦ (ok tt, record w { joined_rooms = rooms })
    | raise e ↦ (raise e, w)
  ]

  module _ (sub : Subscriber) (msg : ClientMessage) where
    -- `msg.data.get(k)`
    abbrev pub datum : String → Json
    datum k = value_at k msg.payload

    abbrev pub echo : Result String → Action (W E) (Unit {0})
    echo (raise exc) =
        send E sub
          (server_error "delivery" ("Could not send message: " ++ text_of exc) (datum "to"))
    echo (ok msg_id) = run λ w.
        broadcast E
          (server_message (datum "to") w.jid (datum "to") (datum "body") msg_id (E.clock w.sent)
            "outgoing")
          w

    abbrev pub unless_too_long : Option Json → Action (W E) (Unit {0}) → Action (W E) (Unit {0})
    unless_too_long (some err) go = send E sub err
    unless_too_long none go = go

    unfoldable pub cmd_send_message : Action (W E) (Unit {0})
    cmd_send_message = do
      lift (require msg ("to" ∷ "body" ∷ []))
      err ← lift (too_long (datum "body") (datum "to"))
      unless_too_long err
          (attempt (call E (E.xmpp.send_message (datum "to") (datum "body"))) >>= echo)

    abbrev pub history_entry : String → ArchivedMessage → Json
    history_entry jid m = object (
        ("conversation", datum "jid")
        ∷ ("from", str m.from_jid)
        ∷ ("to", str m.to_jid)
        ∷ ("body", str m.body)
        ∷ ("id", str m.msg_id)
        ∷ ("timestamp", str m.timestamp)
        ∷ ("direction", str (if m.from_jid == jid then "outgoing" else "incoming"))
        ∷ [])

    unfoldable pub cmd_load_history : Action (W E) (Unit {0})
    cmd_load_history = do
      lift (require msg ("jid" ∷ []))
      page ← call E (E.xmpp.fetch_history (datum "jid") (datum "before") E.config.history.page_size)
      jid ← gets (λ w. w.jid)
      send E sub (server_history (datum "jid") (map (history_entry jid) page.0) page.1)

    -- `msg.data.get("show", "online")`
    abbrev pub show_or_online : Option Json → Json
    show_or_online none = str "online"
    show_or_online (some show) = show

    unfoldable pub cmd_set_presence : Action (W E) (Unit {0})
    cmd_set_presence =
        call E (E.xmpp.set_presence (show_or_online (Dict.get "show" msg.payload)) (datum "status"))

    unfoldable pub cmd_add_contact : Action (W E) (Unit {0})
    cmd_add_contact = do
      lift (require msg ("jid" ∷ []))
      call E (E.xmpp.add_contact (datum "jid") (datum "name"))

    unfoldable pub cmd_remove_contact : Action (W E) (Unit {0})
    cmd_remove_contact = do
      lift (require msg ("jid" ∷ []))
      call E (E.xmpp.remove_contact (datum "jid"))

    unfoldable pub cmd_subscription : Action (W E) (Unit {0})
    cmd_subscription = do
      lift (require msg ("jid" ∷ "action" ∷ []))
      call E (E.xmpp.respond_subscription (datum "jid") (datum "action" == str "accept"))

    -- `f"{room}"`, of a room that the allowlist has read as a text
    abbrev pub room_text : Json → String
    room_text (str r) = r
    room_text _ = ""

    -- `msg.data.get("nick") or self.jid.split("@", 1)[0]`
    abbrev pub nick_or_local : String → Json
    nick_or_local jid = if truthy (datum "nick") then datum "nick" else str (before b'@' jid)

    abbrev pub join_allowed : Json → Action (W E) (Unit {0})
    join_allowed room = do
      nick ← gets (λ w. nick_or_local w.jid)
      remember_room room nick
      call E (E.xmpp.join_room room nick)

    unfoldable pub cmd_join_room : Action (W E) (Unit {0})
    cmd_join_room = do
      lift (require msg ("room" ∷ []))
      allowed ← lift (room_domain_allowed (datum "room"))
      (if allowed
          then join_allowed (datum "room")
          else send E sub
              (server_error "muc" ("Room server not allowed: " ++ room_text (datum "room")) null))

    unfoldable pub cmd_leave_room : Action (W E) (Unit {0})
    cmd_leave_room = do
      lift (require msg ("room" ∷ []))
      forget_room (datum "room")
      forget_occupants (datum "room")
      call E (E.xmpp.leave_room (datum "room"))
      run (broadcast E (server_muc_left (datum "room")))

    abbrev pub report_muc : Result String → Action (W E) (Unit {0})
    report_muc (ok _) = pure tt
    report_muc (raise exc) =
        send E sub
          (server_error "delivery" ("Could not send to room: " ++ text_of exc) (datum "room"))

    unfoldable pub cmd_send_muc : Action (W E) (Unit {0})
    cmd_send_muc = do
      lift (require msg ("room" ∷ "body" ∷ []))
      err ← lift (too_long (datum "body") (datum "room"))
      unless_too_long err
          (attempt (call E (E.xmpp.send_muc (datum "room") (datum "body"))) >>= report_muc)
