-- ===== src/Session/Commands/Sending.antt =====
-- What sending a message to a contact does, on each of its paths.
use pyconduit.Base.{
  ◌<◌, ◌+◌, String, string_eq, nat_eq, Bool, [], ◌∷◌, none, some, Option, ◌≡◌, refl, ap, ◌∙◌, arith,
}
use Prim.Native.String.{◌++◌, count}
use pyconduit.Base.Dict
use pyconduit.Json.{Json, str, len}
use pyconduit.Errors.{Error, Result, ok, raise, type_error}
use pyconduit.Protocol.{ClientMessage, require}
use pyconduit.Protocol.Parsing.{IsGiven, require_iff}
use pyconduit.Protocol.Frames.{server_error, server_message}
use pyconduit.Session.World.{Env, W, Subscriber, Action, resume, attempt, ◌>>=◌, send}
use pyconduit.Session.Events.{call}
use pyconduit.Session.Commands.{too_long, cmd_send_message, datum, echo, unless_too_long}
use pyconduit.Session.Account.{text_of}
use pyconduit.Session.Invariant.{Inv}
use pyconduit.Session.Invariant.Coroutines.{call-Inv}
use pyconduit.Session.Broadcast.{IsBroadcast, broadcast-IsBroadcast}

module _ (E : Env) where
  too_long-over :
      (s : String) (to : Json)
      → 0 < E.config.server.max_message_chars
      → E.config.server.max_message_chars < count s
      → too_long E (str s) to
        ≡ ok (
            some (
              server_error "delivery"
                ("Message too long ("
                  ++ (E.python.digits (count s)
                      ++ ("/"
                          ++ (E.python.digits E.config.server.max_message_chars
                              ++ " characters)."))))
                to))
  unfolding too_long
  too_long-over s to limited over = ground arith

  too_long-within :
      (s : String) (to : Json)
      → count s < E.config.server.max_message_chars + 1
      → too_long E (str s) to ≡ ok none
  unfolding too_long
  too_long-within s to within = ground arith

  too_long-unsized :
      (body to : Json)
      → 0 < E.config.server.max_message_chars
      → len body ≡ none
      → too_long E body to ≡ raise type_error
  unfolding too_long
  too_long-unsized body to limited unsized = ground (arith, unsized)

  module _ (sub : Subscriber) (msg : ClientMessage) (w : W E)
      (to_given : IsGiven (Dict.get "to" msg.payload))
      (body_given : IsGiven (Dict.get "body" msg.payload)) where
    given : require msg ("to" ∷ "body" ∷ []) ≡ ok tt
    given = (require_iff msg ("to" ∷ "body" ∷ [])).1 (to_given, (body_given, tt))

    abbrev pub sending : Action (W E) String
    sending = call E (E.xmpp.send_message (datum E sub msg "to") (datum E sub msg "body"))

    -- The handler once its fields are there, by what `_too_long` says.
    sized :
        (r : Result (Option Json))
        → too_long E (datum E sub msg "body") (datum E sub msg "to") ≡ r
        → cmd_send_message E sub msg w
          ≡ resume
              (r, w)
              (λ err. unless_too_long E sub msg err (attempt sending >>= echo E sub msg))
    unfolding cmd_send_message
    sized r e = rw (given, e) refl

    -- With both fields given, a text body over the limit is answered by an error to the tab that
    -- sent it, and that is all:
    -- the client is not called and no other tab is told.
    pub cmd_send_message-too_long :
        (s : String)
        → datum E sub msg "body" ≡ str s
        → 0 < E.config.server.max_message_chars
        → E.config.server.max_message_chars < count s
        → cmd_send_message E sub msg w
          ≡ send E sub
              (server_error "delivery"
                ("Message too long ("
                  ++ (E.python.digits (count s)
                      ++ ("/"
                          ++ (E.python.digits E.config.server.max_message_chars
                              ++ " characters)."))))
                (datum E sub msg "to"))
              w
    cmd_send_message-too_long s text limited over =
        sized _
          (ap (λ b. too_long E b (datum E sub msg "to")) text ∙ too_long-over s _ limited over)

    -- With both fields given, a body that has no length, such as a number, raises a TypeError where a limit is set, and
    -- nothing else happens.
    pub cmd_send_message-type_error :
        len (datum E sub msg "body") ≡ none
        → 0 < E.config.server.max_message_chars
        → cmd_send_message E sub msg w ≡ (raise type_error, w)
    cmd_send_message-type_error unsized limited = sized _ (too_long-unsized _ _ limited unsized)

    -- With both fields given, and the account's invariant holding before, a text body within the
    -- limit that the client takes is echoed to the set of attached tabs,
    -- the sender's among them: every tab whose `send` returns gets the one outgoing frame.
    pub cmd_send_message-echo :
        (owner : String) (shut : Bool) (s msg_id : String)
        → Inv E owner shut w
        → datum E sub msg "body" ≡ str s
        → count s < E.config.server.max_message_chars + 1
        → (sending w).0 ≡ ok msg_id
        → let w' = (sending w).1 in
          IsBroadcast E
            (server_message
              (datum E sub msg "to")
              w'.jid
              (datum E sub msg "to")
              (datum E sub msg "body")
              msg_id
              (E.clock w'.sent)
              "outgoing")
            w'
            (cmd_send_message E sub msg w).1
    cmd_send_message-echo owner shut s msg_id h text within sent =
        rw
          (sized _
            (ap (λ b. too_long E b (datum E sub msg "to")) text ∙ too_long-within s _ within))
          (rw sent (broadcast-IsBroadcast E _ _ ((call-Inv E owner shut _).at w h).distinct))

    -- With both fields given and a text body within the limit, where the client raises, the error goes to the tab that sent the message, and no echo to any.
    pub cmd_send_message-failed :
        (s : String) (exc : Error)
        → datum E sub msg "body" ≡ str s
        → count s < E.config.server.max_message_chars + 1
        → (sending w).0 ≡ raise exc
        → cmd_send_message E sub msg w
          ≡ send E sub
              (server_error "delivery"
                ("Could not send message: " ++ text_of exc)
                (datum E sub msg "to"))
              (sending w).1
    cmd_send_message-failed s exc text within sent =
        rw
          (sized _
            (ap (λ b. too_long E b (datum E sub msg "to")) text ∙ too_long-within s _ within))
          (rw sent refl)
