-- ===== src/Xmpp/Connection/Requests.antt =====
-- What the requests of src/pyconduit/xmpp/slixmpp_client.py leave alone: whether there is a session.
use pyconduit.Base.{
  ℕ, String, string_eq, ◌==◌, Bool, if◌then◌else◌, List, [], ◌∷◌, Option, none, some, ◌≡◌, refl,
}
use pyconduit.Base.Dict
use pyconduit.Base.Dict.{Dict}
use pyconduit.Json.{Json, json_eq, null}
use pyconduit.Interface.{muc_joined}
use pyconduit.Xmpp.Library.{
  Slixmpp, Letters, IqResult, returned, iq_failed, broke, Archive, ArchiveEntry, chat, groupchat,
  subscribe, subscribed, unsubscribed,
}
use pyconduit.Xmpp.Client.{S, transmit, bare_of, run}
use pyconduit.Xmpp.Presence.{set_presence}
use pyconduit.Xmpp.Roster.{
  add_contact, remove_contact, respond_subscription, emit_roster, name_or, unless_broke,
}
use pyconduit.Xmpp.Messages.{send_message}
use pyconduit.Xmpp.Rooms.{join_room, leave_room, leave_as, send_muc, disco_rooms, discovered}
use pyconduit.Xmpp.History.{fetch_history, collect, page_of, archived, before_or_empty}
use pyconduit.Xmpp.Connection.{slixmpp_client}
use pyconduit.Xmpp.Connection.Link.{
  link, IsQuiet, bind-IsQuiet, pure-IsQuiet, answer-IsQuiet, emit-IsQuiet, if-IsQuiet, gets-IsQuiet,
  call-IsQuiet, id_or_new-IsQuiet, emit_occupants-IsQuiet,
}
use pyconduit.Session.World.{Env}
use pyconduit.Session.Kept.{
  IsRequest, asks_message, asks_presence, asks_history, asks_contact, asks_removal,
  asks_subscription, asks_room, asks_leave, asks_muc, asks_rooms,
}

module _ (X : Slixmpp) where
  transmit-IsQuiet : (op : X.State → X.State) → IsQuiet (transmit X op)
  transmit-IsQuiet op = record { at = λ c. refl }

  bare_of-IsQuiet : (v : Json) → IsQuiet (bare_of X v)
  bare_of-IsQuiet v = bind-IsQuiet (answer-IsQuiet (X.parse_jid v)) λ j. pure-IsQuiet j.bare

  noted-IsQuiet :
      (f : Dict String Json → Dict String Json)
      → IsQuiet {L = X.State} (run λ c. record c { joined_rooms = f c.joined_rooms })
  noted-IsQuiet f = record { at = λ c. refl }

  emit_roster-IsQuiet : IsQuiet (emit_roster X)
  unfolding emit_roster
  emit_roster-IsQuiet = record { at = λ c. refl }

  send_message-IsQuiet : (to body : Json) → IsQuiet (send_message X to body)
  unfolding send_message
  send_message-IsQuiet to body = bind-IsQuiet (call-IsQuiet X X.new_id) λ id.
      bind-IsQuiet (bare_of-IsQuiet to) λ bare.
        bind-IsQuiet (transmit-IsQuiet (X.transmit (chat bare body id))) λ _. pure-IsQuiet id

  set_presence-IsQuiet : (show status : Json) → IsQuiet (set_presence X show status)
  unfolding set_presence
  set_presence-IsQuiet show status = if-IsQuiet _ (transmit-IsQuiet _) (transmit-IsQuiet _)

  archived-IsQuiet : (e : ArchiveEntry X.Datetime) → IsQuiet (archived X e)
  archived-IsQuiet e = bind-IsQuiet (id_or_new-IsQuiet X e.id) λ id. record { at = λ c. refl }

  collect-IsQuiet : (es : List (ArchiveEntry X.Datetime)) → IsQuiet (collect X es)
  unfolding collect
  collect-IsQuiet [] = pure-IsQuiet []
  collect-IsQuiet (e ∷ es) = if-IsQuiet (e.body == "") (collect-IsQuiet es) (
      bind-IsQuiet (archived-IsQuiet e)
        λ m. bind-IsQuiet (collect-IsQuiet es) λ ms. pure-IsQuiet (m ∷ ms))

  page_of-IsQuiet : (limit : ℕ) (r : IqResult (Archive X.Datetime)) → IsQuiet (page_of X limit r)
  page_of-IsQuiet limit iq_failed = pure-IsQuiet _
  page_of-IsQuiet limit (broke text) = answer-IsQuiet _
  page_of-IsQuiet limit (returned a) = bind-IsQuiet (collect-IsQuiet a.results) λ ms. pure-IsQuiet _

  fetch_history-IsQuiet :
      (peer before : Json) (limit : ℕ) → IsQuiet (fetch_history X peer before limit)
  unfolding fetch_history
  fetch_history-IsQuiet peer before limit = bind-IsQuiet (bare_of-IsQuiet peer) λ bare.
      bind-IsQuiet (call-IsQuiet X (X.retrieve bare (before_or_empty X before) limit))
        λ r. page_of-IsQuiet limit r

  add_contact-IsQuiet : (jid name : Json) → IsQuiet (add_contact X jid name)
  unfolding add_contact
  add_contact-IsQuiet jid name = bind-IsQuiet (bare_of-IsQuiet jid) λ bare.
      bind-IsQuiet (transmit-IsQuiet (X.transmit (subscribe bare))) λ _.
        bind-IsQuiet (transmit-IsQuiet (X.update_roster bare (name_or X name bare)))
          λ _. emit_roster-IsQuiet

  remove_contact-IsQuiet : (jid : Json) → IsQuiet (remove_contact X jid)
  unfolding remove_contact
  remove_contact-IsQuiet jid = bind-IsQuiet (bare_of-IsQuiet jid) λ bare.
      bind-IsQuiet (call-IsQuiet X (X.del_roster_item bare))
        λ r. bind-IsQuiet (answer-IsQuiet (unless_broke r)) λ _. emit_roster-IsQuiet

  respond_subscription-IsQuiet :
      (jid : Json) (accept : Bool) → IsQuiet (respond_subscription X jid accept)
  unfolding respond_subscription
  respond_subscription-IsQuiet jid accept = bind-IsQuiet (bare_of-IsQuiet jid) λ bare.
      bind-IsQuiet
        (transmit-IsQuiet (X.transmit (if accept then subscribed bare else unsubscribed bare)))
        λ _. if-IsQuiet accept (transmit-IsQuiet (X.transmit (subscribe bare))) (pure-IsQuiet tt)

  join_room-IsQuiet : (room nick : Json) → IsQuiet (join_room X room nick)
  unfolding join_room
  join_room-IsQuiet room nick = bind-IsQuiet (bare_of-IsQuiet room) λ bare.
      bind-IsQuiet (noted-IsQuiet (Dict.put bare nick)) λ _.
        bind-IsQuiet (call-IsQuiet X (X.join_muc_wait bare nick)) λ joined.
          bind-IsQuiet (answer-IsQuiet joined) λ _.
            bind-IsQuiet
              (emit-IsQuiet (muc_joined (record { room = bare; nick = nick; subject = none })))
              λ _. emit_occupants-IsQuiet X bare

  leave_as-IsQuiet : (bare : String) (nick : Option Json) → IsQuiet (leave_as X bare nick)
  leave_as-IsQuiet bare none = pure-IsQuiet tt
  leave_as-IsQuiet bare (some null) = pure-IsQuiet tt
  leave_as-IsQuiet bare (some nick) = transmit-IsQuiet (X.leave_muc bare nick)

  leave_room-IsQuiet : (room : Json) → IsQuiet (leave_room X room)
  unfolding leave_room
  leave_room-IsQuiet room = bind-IsQuiet (bare_of-IsQuiet room) λ bare.
      bind-IsQuiet (gets-IsQuiet (λ c. Dict.get bare c.joined_rooms))
        λ nick. bind-IsQuiet (noted-IsQuiet (Dict.pop bare)) λ _. leave_as-IsQuiet bare nick

  send_muc-IsQuiet : (room body : Json) → IsQuiet (send_muc X room body)
  unfolding send_muc
  send_muc-IsQuiet room body = bind-IsQuiet (bare_of-IsQuiet room) λ bare.
      bind-IsQuiet (call-IsQuiet X X.new_id) λ id.
        bind-IsQuiet (transmit-IsQuiet (X.transmit (groupchat bare body id))) λ _. pure-IsQuiet id

  disco_rooms-IsQuiet : (server : String) → IsQuiet (disco_rooms X server)
  unfolding disco_rooms
  disco_rooms-IsQuiet server =
      bind-IsQuiet (call-IsQuiet X (X.get_items server)) λ r. answer-IsQuiet (discovered X server r)

  pub request-link :
      (letters : Letters) (E : Env) {f : S X → S X}
      → IsRequest (record E { xmpp = slixmpp_client X letters }) f
      → (c : S X) → link (f c) ≡ link c
  request-link letters E (asks_message to body _) c = (send_message-IsQuiet to body).at c
  request-link letters E (asks_presence show status) c = (set_presence-IsQuiet show status).at c
  request-link letters E (asks_history jid before size) c =
      (fetch_history-IsQuiet jid before size).at c
  request-link letters E (asks_contact jid name) c = (add_contact-IsQuiet jid name).at c
  request-link letters E (asks_removal jid) c = (remove_contact-IsQuiet jid).at c
  request-link letters E (asks_subscription jid accept) c =
      (respond_subscription-IsQuiet jid accept).at c
  request-link letters E (asks_room room nick) c = (join_room-IsQuiet room nick).at c
  request-link letters E (asks_leave room) c = (leave_room-IsQuiet room).at c
  request-link letters E (asks_muc room body _) c = (send_muc-IsQuiet room body).at c
  request-link letters E (asks_rooms server) c = (disco_rooms-IsQuiet server).at c
