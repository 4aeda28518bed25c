-- ===== src/Tests/Sessions.antt =====
-- An account: its tabs, its messages, its rooms and its tasks.
use pyconduit.Base.{true, false, string_eq, ◌≡◌, refl, some, [], ◌∷◌, arith}
use pyconduit.Base.Dict
use pyconduit.Json.{Json, int, str}
use pyconduit.Errors.{ok, raise, type_error}
use pyconduit.Protocol.Parsing.{IsGiven}
use pyconduit.Protocol.Frames.{server_error, server_message, server_muc_left}
use pyconduit.Session.World.{W, is_pending, broadcast, send}
use pyconduit.Session.Events.{call, on_notices}
use pyconduit.Session.Account.{attach}
use pyconduit.Session.Broadcast.{IsBroadcast, broadcast-IsBroadcast}
use pyconduit.Session.Invariant.{Inv}
use pyconduit.Session.History.{here, next, attaches, Reach-Inv, closing_forever, init}
use pyconduit.Session.Commands.{cmd_send_message, room_domain_allowed}
use pyconduit.Session.Commands.Sending.{
  cmd_send_message-echo, cmd_send_message-too_long, cmd_send_message-type_error,
}
use pyconduit.Session.Commands.Rooms.{room_domain_allowed-resource, address_domain}
use pyconduit.Session.Dispatch.{Handler, handler_of, run_handler, handle_command}
use pyconduit.Session.Dispatch.Known.{handle_command_of_parsed}
use pyconduit.Session.Lifecycle.{close}
use pyconduit.Session.Lifecycle.Laws.{close-Inv}
use pyconduit.Tests.Fixtures.{env, start, alice, bob, message}
use pyconduit.Tests.Frames.{joining, joining_raw, joining_parsed}

-- Two tabs, with the client connected.
abbrev pub opened : W env
opened = record (start env true) { subscribers = alice ∷ bob ∷ [] }

pub opened-Inv : Inv env "alice@example" false opened
unfolding init
opened-Inv = record {
  own = refl;
  phase = refl;
  distinct = (ground arith, (refl, tt));
  alone = λ e. cc;
  settled = λ e. refl;
  allowed = tt;
  presence_keys = tt;
  room_keys = tt;
  occupant_keys = tt;
}

to-IsGiven : (body : Json) → IsGiven (Dict.get "to" (message body).payload)
unfolding Dict.get string_eq
to-IsGiven body = ((λ e. cc e), (λ e. cc e), (λ e. cc e))

hi-IsGiven : IsGiven (Dict.get "body" (message (str "hi")).payload)
unfolding Dict.get string_eq
hi-IsGiven = ((λ e. cc e), (λ e. cc e), (λ e. cc e))

long-IsGiven : IsGiven (Dict.get "body" (message (str "too long")).payload)
unfolding Dict.get string_eq
long-IsGiven = ((λ e. cc e), (λ e. cc e), (λ e. cc e))

number-IsGiven : IsGiven (Dict.get "body" (message (int 7)).payload)
unfolding Dict.get string_eq
number-IsGiven = ((λ e. cc e), (λ e. cc e), (λ e. cc e))

broadcast-IsBroadcast_example :
    IsBroadcast env
      (server_muc_left (str "r"))
      opened
      (broadcast env (server_muc_left (str "r")) opened)
broadcast-IsBroadcast_example =
    broadcast-IsBroadcast env (server_muc_left (str "r")) opened opened-Inv.distinct

cmd_send_message-echo_example :
    IsBroadcast env
      (server_message
        (str "carol@example")
        "alice@example"
        (str "carol@example")
        (str "hi")
        "m1"
        "2024-01-01T00:00:00Z"
        "outgoing")
      opened
      (cmd_send_message env alice (message (str "hi")) opened).1
unfolding call on_notices Dict.get string_eq init
cmd_send_message-echo_example =
    cmd_send_message-echo env alice (message (str "hi")) opened (to-IsGiven (str "hi")) hi-IsGiven
      "alice@example" false "hi" "m1" opened-Inv refl (omega arith) refl

cmd_send_message-too_long_example :
    cmd_send_message env alice (message (str "too long")) opened
    ≡ send env alice
        (server_error "delivery" "Message too long (n/n characters)." (str "carol@example"))
        opened
unfolding Dict.get string_eq
cmd_send_message-too_long_example =
    cmd_send_message-too_long env alice (message (str "too long")) opened
      (to-IsGiven (str "too long")) long-IsGiven "too long" refl (omega arith) (omega arith)

cmd_send_message-type_error_example :
    cmd_send_message env alice (message (int 7)) opened ≡ (raise type_error, opened)
unfolding Dict.get string_eq
cmd_send_message-type_error_example =
    cmd_send_message-type_error env alice (message (int 7)) opened (to-IsGiven (int 7))
      number-IsGiven refl (omega arith)

room_domain_allowed-resource_example :
    (room_domain_allowed env (str "other.example/x@muc.example") ≡ ok true)
    × (address_domain "other.example/x@muc.example" ≡ "other.example")
unfolding string_eq
room_domain_allowed-resource_example =
    room_domain_allowed-resource env "other.example" "x" "muc.example" (ground arith) (ground arith)
      (ground arith) (ground arith) refl

handle_command_of_parsed_example :
    (h : Handler) × (handler_of "join_room" ≡ some h)
    × (handle_command env alice joining opened ≡ run_handler env alice joining h opened)
handle_command_of_parsed_example =
    handle_command_of_parsed env alice joining_raw joining opened joining_parsed

abbrev attached_world : W env
attached_world = (attach env alice (start env false)).1

Reach-Inv_example : Inv env "alice@example" attached_world.closing attached_world
Reach-Inv_example =
    Reach-Inv env "alice@example" "secret" false attached_world
      (next here (attaches alice (start env false)))

closing_forever_example :
    ((attach env alice (close env opened)).1.closing ≡ true)
    × (is_pending env (attach env alice (close env opened)).1.reconnect_task ≡ false)
closing_forever_example =
    closing_forever env "alice@example" (close env opened) (attach env alice (close env opened)).1
      (close-Inv env "alice@example" false opened opened-Inv)
      (next here (attaches alice (close env opened)))
