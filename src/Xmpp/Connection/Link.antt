-- ===== src/Xmpp/Connection/Link.antt =====
-- What the handlers of stanzas leave alone: whether there is a session.
use pyconduit.Base.{
  String, string_eq, ◌==◌, Bool, true, false, ◌||◌, if◌then◌else◌, List, Option, none, some, ◌≡◌,
  refl, ◌∙◌, Bool-cases, inl, inr,
}
use pyconduit.Base.Dict
use pyconduit.Json.{Json, json_eq, str}
use pyconduit.Interface.{Answer, done, failed, Notice, muc_occupants, muc_message, MucMessage}
use pyconduit.Xmpp.Library.{Slixmpp, Letters, MessageStanza, PresenceStanza}
use pyconduit.Xmpp.Client.{Client, Failure, Method, ◌>>=◌, pure, answer, gets, emit, call, resume}
use pyconduit.Xmpp.Presence.{on_presence, note_presence, is_ignored}
use pyconduit.Xmpp.Roster.{emit_roster, on_roster_update, on_subscribe}
use pyconduit.Xmpp.Messages.{id_or_new, on_message, on_chat}
use pyconduit.Xmpp.Rooms.{
  on_groupchat_message, on_groupchat_presence, emit_occupants, announce, in_room, occupants,
  nicks_of, is_nick, mentions_us,
}

abbrev pub Link : Type 0
Link = Bool × Bool × Failure

abbrev pub link : {L : Type 0} → Client L → Link
link c = (c.connected, c.session_ready, c.session_failed)

-- A method that leaves the session as it is.
pub record IsQuiet {L A : Type 0} (m : Method (Client L) A) : Type 0 where
  pub at : (c : Client L) → link (m c).state ≡ link c

module _ {L : Type 0} where
  pub bind-IsQuiet :
      {A B : Type 0} {m : Method (Client L) A} {f : A → Method (Client L) B}
      → IsQuiet m
      → ((a : A) → IsQuiet (f a))
      → IsQuiet (m >>= f)
  bind-IsQuiet {A} {B} {m} {f} q k = record {
    at = λ c. go (m c).outcome (m c).state (m c).events ∙ q.at c;
  }
    where
      go : (r : Answer A) (c : Client L) (es : List Notice) → link (resume r c es f).state ≡ link c
      go (done a) c es = (k a).at c
      go (failed text) c es = refl

  pub emit-IsQuiet : (n : Notice) → IsQuiet {L = L} (emit n)
  emit-IsQuiet n = record { at = λ c. refl }

  pub pure-IsQuiet : {A : Type 0} (a : A) → IsQuiet {L = L} (pure a)
  pure-IsQuiet a = record { at = λ c. refl }

  pub answer-IsQuiet : {A : Type 0} (r : Answer A) → IsQuiet {L = L} (answer r)
  answer-IsQuiet r = record { at = λ c. refl }

  pub gets-IsQuiet : {A : Type 0} (f : Client L → A) → IsQuiet (gets f)
  gets-IsQuiet f = record { at = λ c. refl }

  pub if-IsQuiet :
      {A : Type 0} (b : Bool) {m n : Method (Client L) A}
      → IsQuiet m
      → IsQuiet n
      → IsQuiet (if b then m else n)
  if-IsQuiet true p q = p
  if-IsQuiet false p q = q

  pub on_presence-IsQuiet : (p : PresenceStanza) → IsQuiet {L = L} (on_presence p)
  unfolding on_presence note_presence
  on_presence-IsQuiet p = record {
    at = λ c. elim (Bool-cases (is_ignored p c)) [
      | inl skip ↦ rw skip refl
      | inr heard ↦ rw heard refl
    ];
  }

module _ (X : Slixmpp) where
  pub call-IsQuiet : {A : Type 0} (op : X.State → A × X.State) → IsQuiet (call X op)
  call-IsQuiet op = record { at = λ c. refl }

  pub on_roster_update-IsQuiet : IsQuiet (on_roster_update X)
  unfolding on_roster_update emit_roster
  on_roster_update-IsQuiet = record { at = λ c. refl }

  pub on_subscribe-IsQuiet : (p : PresenceStanza) → IsQuiet (on_subscribe X p)
  unfolding on_subscribe
  on_subscribe-IsQuiet p = emit-IsQuiet _

  pub id_or_new-IsQuiet : (id : String) → IsQuiet (id_or_new X id)
  unfolding id_or_new
  id_or_new-IsQuiet id = if-IsQuiet (id == "") (call-IsQuiet X.new_id) (pure-IsQuiet id)

  on_chat-IsQuiet : (m : MessageStanza) → IsQuiet (on_chat X m)
  on_chat-IsQuiet m = bind-IsQuiet (id_or_new-IsQuiet m.id) λ msg_id. record { at = λ c. refl }

  pub on_message-IsQuiet : (m : MessageStanza) → IsQuiet (on_message X m)
  unfolding on_message
  on_message-IsQuiet m = if-IsQuiet (m.type == "error") (emit-IsQuiet _) (
      if-IsQuiet (m.type == "chat" || m.type == "normal")
        (if-IsQuiet (m.body == "") (pure-IsQuiet tt) (on_chat-IsQuiet m)) (pure-IsQuiet tt))

  pub emit_occupants-IsQuiet : (room : String) → IsQuiet (emit_occupants X room)
  unfolding emit_occupants
  emit_occupants-IsQuiet room = record {
    at = λ c.
        (bind-IsQuiet
            (answer-IsQuiet (occupants X room (nicks_of X (X.muc_roster room c.lib)) c.lib))
            (λ os. emit-IsQuiet (muc_occupants (record { room = room; occupants = os })))).at
          c;
  }

  announce-IsQuiet : (p : PresenceStanza) (ours : Json) → IsQuiet (announce X p ours)
  announce-IsQuiet p ours =
      if-IsQuiet (str p.sender.resource == ours) (pure-IsQuiet tt) (emit-IsQuiet _)

  in_room-IsQuiet : (p : PresenceStanza) (ours : Option Json) → IsQuiet (in_room X p ours)
  in_room-IsQuiet p none = pure-IsQuiet tt
  in_room-IsQuiet p (some ours) =
      bind-IsQuiet (announce-IsQuiet p ours) λ _. emit_occupants-IsQuiet p.sender.bare

  pub on_groupchat_presence-IsQuiet : (p : PresenceStanza) → IsQuiet (on_groupchat_presence X p)
  unfolding on_groupchat_presence
  on_groupchat_presence-IsQuiet p = record {
    at = λ c. (in_room-IsQuiet p (Dict.get p.sender.bare c.joined_rooms)).at c;
  }

  pub on_groupchat_message-IsQuiet :
      (letters : Letters) (m : MessageStanza) → IsQuiet (on_groupchat_message X letters m)
  unfolding on_groupchat_message
  on_groupchat_message-IsQuiet letters m =
      if-IsQuiet (m.body == "") (pure-IsQuiet tt)
        (record { at = λ c. (with_ours (Dict.get m.sender.bare c.joined_rooms)).at c })
    where
      told : String → Option Json → Bool → MucMessage
      told msg_id ours b = record {
        room = m.sender.bare;
        nick = m.sender.resource;
        body = m.body;
        msg_id = msg_id;
        timestamp = "";
        is_self = is_nick X m.sender.resource ours;
        mentions_me = b;
      }

      with_ours :
          (ours : Option Json)
          → IsQuiet (
              id_or_new X m.id >>= λ msg_id. gets (λ c. X.now c.lib) >>= λ timestamp.
              answer (mentions_us X letters m.sender.resource ours m.body) >>= λ b.
              emit (muc_message (record (told msg_id ours b) { timestamp = timestamp })))
      with_ours ours = bind-IsQuiet (id_or_new-IsQuiet m.id) λ msg_id. record {
        at = λ c.
            (bind-IsQuiet (answer-IsQuiet (mentions_us X letters m.sender.resource ours m.body))
                (λ b.
                  emit-IsQuiet
                    (muc_message (record (told msg_id ours b) { timestamp = X.now c.lib })))).at
              c;
      }
