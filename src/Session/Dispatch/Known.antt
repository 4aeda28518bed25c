-- ===== src/Session/Dispatch/Known.antt =====
-- Every message that protocol.py lets through has a handler in account.py.
use pyconduit.Base.{
  String, string_eq, true, contains, none, some, ◌≡◌, ◌≢◌, refl, arith, inl, inr, Option-cases,
}
use pyconduit.Json.{Json}
use pyconduit.Errors.{ok}
use pyconduit.Protocol.{ClientMessage, client_types, parse_client_message}
use pyconduit.Protocol.Parsing.{parse_client_message_iff}
use pyconduit.Session.World.{Env, W, Subscriber}
use pyconduit.Session.Dispatch.{Handler, handler_of, run_handler, handle_command}

known-handled : (t : String) → contains client_types t ≡ true → handler_of t ≢ none
unfolding handler_of
known-handled t known = ground arith

module _ (E : Env) (sub : Subscriber) where
  -- A message that `parse_client_message` has let through is run by one of the ten handlers: the
  -- answer "unknown command" is never given to it.
  pub handle_command_of_parsed :
      (raw : Json) (msg : ClientMessage) (w : W E)
      → parse_client_message E.python raw ≡ ok msg
      → (h : Handler) × (handler_of msg.type ≡ some h)
        × (handle_command E sub msg w ≡ run_handler E sub msg h w)
  unfolding handle_command
  handle_command_of_parsed raw msg w parsed = elim (Option-cases (handler_of msg.type)) [
    | inl unknown ↦ absurd (
        known-handled msg.type ((parse_client_message_iff E.python raw msg).0 parsed).known unknown)
    | inr (h, e) ↦ (h, e, rw (e, handle_command) refl)
  ]
