-- ===== src/Xmpp/Rooms.antt =====
-- src/pyconduit/xmpp/slixmpp_client.py: rooms, their occupants and their messages.
use pyconduit.Base.{
  String, string_eq, ◌==◌, Bool, true, false, not, if◌then◌else◌, List, [], ◌∷◌, map, Option, none,
  some,
}
use pyconduit.Base.Dict
use pyconduit.Json.{Json, null, str, object, json_eq}
use pyconduit.Interface.{
  Answer, done, failed, muc_joined, muc_message, muc_occupants, muc_presence, DiscoveredRooms,
  RoomEntry,
}
use pyconduit.Xmpp.Library.{
  Slixmpp, IqResult, returned, iq_failed, broke, MessageStanza, PresenceStanza, groupchat,
  DiscoItem, Letters,
}
use pyconduit.Xmpp.Client.{
  Method, S, ◌>>=◌, ◌>>◌, pure, answer, gets, run, emit, call, transmit, bare_of, or_text,
}
use pyconduit.Xmpp.Presence.{normal_show}
use pyconduit.Xmpp.Messages.{id_or_new}
use pyconduit.Xmpp.Mentions.{mentions}

-- `None or ""`
abbrev pub text_or_empty : Option String → String
text_or_empty none = ""
text_or_empty (some s) = s

module _ (X : Slixmpp) where
  -- `_muc_prop`
  unfoldable pub muc_prop : String → String → String → X.State → Option String
  muc_prop room nick prop lib = elim (X.get_jid_property room nick prop lib) [
    | done v ↦ v
    | failed _ ↦ none
  ]

  -- `JID(jid).bare`, of an occupant's real address
  abbrev real_jid : String → Answer String
  real_jid jid =
      if jid == ""
      then done ""
      else elim (X.parse_jid (str jid)) [ done j ↦ done j.bare | failed text ↦ failed text ]

  -- `_muc_real_jid`
  unfoldable pub muc_real_jid : String → String → X.State → Answer String
  unfolding muc_prop
  muc_real_jid room nick lib = real_jid (text_or_empty (muc_prop room nick "jid" lib))

  unfoldable pub occupant : String → String → X.State → Answer Json
  unfolding muc_prop muc_real_jid
  occupant room nick lib = elim (muc_real_jid room nick lib) [
    | failed text ↦ failed text
    | done jid ↦ done (
        object (
          ("nick", str nick)
          ∷ ("role", str (or_text (text_or_empty (muc_prop room nick "role" lib)) "participant"))
          ∷ ("show", str (normal_show (text_or_empty (muc_prop room nick "show" lib))))
          ∷ ("jid", str jid)
          ∷ []))
  ]

  unfoldable pub occupants : String → List String → X.State → Answer (List Json)
  unfolding occupant
  occupants room [] lib = done []
  occupants room (nick ∷ nicks) lib =
      let rest = occupants room nicks lib in
      elim (occupant room nick lib) [
        | failed text ↦ failed text
        | done o ↦ elim rest [ failed text ↦ failed text | done os ↦ done (o ∷ os) ]
      ]

  -- `except Exception: roster = []`
  abbrev pub nicks_of : Answer (List String) → List String
  nicks_of (done nicks) = nicks
  nicks_of (failed _) = []

  unfoldable pub emit_occupants : String → Method (S X) (Unit {0})
  emit_occupants room = do
    nicks ← gets (λ c. nicks_of (X.muc_roster room c.lib))
    lib ← gets (λ c. c.lib)
    os ← answer (occupants room nicks lib)
    emit (muc_occupants (record { room = room; occupants = os }))

  unfoldable pub join_room : Json → Json → Method (S X) (Unit {0})
  join_room room nick = do
    bare ← bare_of X room
    run λ c. record c { joined_rooms = Dict.put bare nick c.joined_rooms }
    joined ← call X (X.join_muc_wait bare nick)
    answer joined
    emit (muc_joined (record { room = bare; nick = nick; subject = none }))
    emit_occupants bare

  abbrev pub leave_as : String → Option Json → Method (S X) (Unit {0})
  leave_as bare none = pure tt
  leave_as bare (some null) = pure tt
  leave_as bare (some nick) = transmit X (X.leave_muc bare nick)

  unfoldable pub leave_room : Json → Method (S X) (Unit {0})
  leave_room room = do
    bare ← bare_of X room
    nick ← gets (λ c. Dict.get bare c.joined_rooms)
    run λ c. record c { joined_rooms = Dict.pop bare c.joined_rooms }
    leave_as bare nick

  unfoldable pub send_muc : Json → Json → Method (S X) String
  send_muc room body = do
    bare ← bare_of X room
    msg_id ← call X X.new_id
    transmit X (X.transmit (groupchat bare body msg_id))
    pure msg_id

  -- `nick == our_nick`
  abbrev pub is_nick : String → Option Json → Bool
  is_nick nick none = false
  is_nick nick (some ours) = str nick == ours

  abbrev pub checked : Option Bool → Answer Bool
  checked none = failed "TypeError"
  checked (some b) = done b

  module _ (letters : Letters) where
    -- `(not is_self) and _mentions(our_nick, body)`
    abbrev pub mentions_us : String → Option Json → String → Answer Bool
    mentions_us nick ours body =
        if is_nick nick ours then done false else checked (mentions letters ours body)

    abbrev pub on_body : MessageStanza → Method (S X) (Unit {0})
    on_body m = do
      ours ← gets (λ c. Dict.get m.sender.bare c.joined_rooms)
      msg_id ← id_or_new X m.id
      timestamp ← gets (λ c. X.now c.lib)
      mentions_me ← answer (mentions_us m.sender.resource ours m.body)
      emit (
          muc_message (record {
            room = m.sender.bare;
            nick = m.sender.resource;
            body = m.body;
            msg_id = msg_id;
            timestamp = timestamp;
            is_self = is_nick m.sender.resource ours;
            mentions_me = mentions_me;
          }))

    unfoldable pub on_groupchat_message : MessageStanza → Method (S X) (Unit {0})
    on_groupchat_message m = if m.body == "" then pure tt else on_body m

  -- Our own coming and going is not announced.
  abbrev pub announce : PresenceStanza → Json → Method (S X) (Unit {0})
  announce p ours =
      if str p.sender.resource == ours
      then pure tt
      else emit (
          muc_presence (record {
            room = p.sender.bare;
            nick = p.sender.resource;
            joined = not (p.type == "unavailable");
          }))

  abbrev pub in_room : PresenceStanza → Option Json → Method (S X) (Unit {0})
  in_room p none = pure tt
  in_room p (some ours) = do announce p ours; emit_occupants p.sender.bare

  unfoldable pub on_groupchat_presence : PresenceStanza → Method (S X) (Unit {0})
  on_groupchat_presence p = do
    ours ← gets (λ c. Dict.get p.sender.bare c.joined_rooms)
    in_room p ours

  abbrev pub room_entry : DiscoItem → RoomEntry
  room_entry i = record { jid = i.jid; name = or_text i.name i.jid }

  abbrev pub discovered : String → IqResult (List DiscoItem) → Answer DiscoveredRooms
  discovered server (returned items) =
      done (record { server = server; rooms = map room_entry items; online = true })
  discovered server iq_failed = done (record { server = server; rooms = []; online = false })
  discovered server (broke text) = failed text

  unfoldable pub disco_rooms : String → Method (S X) DiscoveredRooms
  disco_rooms server = do r ← call X (X.get_items server); answer (discovered server r)
