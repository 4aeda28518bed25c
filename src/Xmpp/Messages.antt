-- ===== src/Xmpp/Messages.antt =====
-- src/pyconduit/xmpp/slixmpp_client.py: messages between two addresses.
use pyconduit.Base.{String, string_eq, ◌==◌, ◌||◌, if◌then◌else◌, Option, none, some}
use pyconduit.Json.{Json}
use pyconduit.Interface.{incoming_message, delivery_failure}
use pyconduit.Xmpp.Library.{Slixmpp, MessageStanza, chat}
use pyconduit.Xmpp.Client.{
  Method, S, ◌>>=◌, ◌>>◌, pure, gets, emit, call, transmit, bare_of, or_text,
}

module _ (X : Slixmpp) where
  unfoldable pub send_message : Json → Json → Method (S X) String
  send_message to_jid body = do
    msg_id ← call X X.new_id
    bare ← bare_of X to_jid
    transmit X (X.transmit (chat bare body msg_id))
    pure msg_id

  -- `msg["id"] or self._xmpp.new_id()`
  unfoldable pub id_or_new : String → Method (S X) String
  id_or_new id = if id == "" then call X X.new_id else pure id

  -- `msg["id"] or None`
  abbrev pub optional_id : String → Option String
  optional_id id = if id == "" then none else some id

  abbrev pub on_chat : MessageStanza → Method (S X) (Unit {0})
  on_chat m = do
    msg_id ← id_or_new m.id
    timestamp ← gets (λ c. X.now c.lib)
    emit (
        incoming_message (record {
          from_jid = m.sender.bare;
          to_jid = m.receiver.bare;
          body = m.body;
          msg_id = msg_id;
          timestamp = timestamp;
        }))

  unfoldable pub on_message : MessageStanza → Method (S X) (Unit {0})
  on_message m =
      if m.type == "error"
      then emit (
          delivery_failure (record {
            to_jid = m.sender.bare;
            error = or_text m.error_text (or_text m.error_condition "delivery failed");
            msg_id = optional_id m.id;
          }))
      else if m.type == "chat" || m.type == "normal"
      then (if m.body == "" then pure tt else on_chat m)
      else pure tt
