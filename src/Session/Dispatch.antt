-- ===== src/Session/Dispatch.antt =====
-- src/pyconduit/session/account.py: `handle_command`, which finds a handler by the name of a type.
pub mod Known
use pyconduit.Base.{
  String, string_eq, ◌==◌, Bool, true, false, List, [], ◌∷◌, none, some, Option, if◌then◌else◌,
}
use Prim.Native.String.{◌++◌}
use pyconduit.Json.{null}
use pyconduit.Protocol.{ClientMessage}
use pyconduit.Protocol.Frames.{server_error}
use pyconduit.Session.World.{Env, World, W, Subscriber, Action, send}
use pyconduit.Session.Commands.{
  cmd_send_message, cmd_load_history, cmd_set_presence, cmd_add_contact, cmd_remove_contact,
  cmd_subscription, cmd_join_room, cmd_leave_room, cmd_send_muc,
}
use pyconduit.Session.Commands.Disco.{cmd_disco_servers}

-- The methods whose names begin with `_cmd_`.
pub data Handler : Type 0 where
  send_message load_history set_presence add_contact remove_contact subscription : Handler
  join_room leave_room send_muc disco_servers : Handler

-- `getattr(self, f"_cmd_{msg.type}", None)`
unfoldable pub handler_of : String → Option Handler
handler_of t =
    if t == "send_message"
    then some send_message
    else if t == "load_history"
    then some load_history
    else if t == "set_presence"
    then some set_presence
    else if t == "add_contact"
    then some add_contact
    else if t == "remove_contact"
    then some remove_contact
    else if t == "subscription"
    then some subscription
    else if t == "join_room"
    then some join_room
    else if t == "leave_room"
    then some leave_room
    else if t == "send_muc"
    then some send_muc
    else if t == "disco_servers"
    then some disco_servers
    else none

module _ (E : Env) (sub : Subscriber) (msg : ClientMessage) where
  unfoldable pub run_handler : Handler → Action (W E) (Unit {0})
  run_handler send_message = cmd_send_message E sub msg
  run_handler load_history = cmd_load_history E sub msg
  run_handler set_presence = cmd_set_presence E sub msg
  run_handler add_contact = cmd_add_contact E sub msg
  run_handler remove_contact = cmd_remove_contact E sub msg
  run_handler subscription = cmd_subscription E sub msg
  run_handler join_room = cmd_join_room E sub msg
  run_handler leave_room = cmd_leave_room E sub msg
  run_handler send_muc = cmd_send_muc E sub msg
  run_handler disco_servers = cmd_disco_servers E sub

  unfoldable pub handle_command : Action (W E) (Unit {0})
  handle_command w = elim (handler_of msg.type) [
    | none ↦ send E sub (server_error "protocol" ("unknown command: " ++ msg.type) null) w
    | some h ↦ run_handler h w
  ]
