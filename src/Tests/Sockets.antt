-- ===== src/Tests/Sockets.antt =====
-- Sockets and the lines of the audit log.
use pyconduit.Base.{String, true, false, string_eq, contains, ◌≡◌, ◌≢◌, refl, none, some, [], ◌∷◌}
use pyconduit.Base.Dict
use pyconduit.Json.{Json, null, int, str, object}
use pyconduit.Errors.{raise, protocol_error, send_error}
use pyconduit.Protocol.{parse_client_message}
use pyconduit.Protocol.Frames.{server_error}
use pyconduit.Auth.{Identity, extract_username, resolve}
use pyconduit.Headers.{last_header, lowered, lowered_from}
use pyconduit.Security.{client_ip, origin_allowed}
use pyconduit.Session.World.{subscriber_eq, send, auth_denied}
use pyconduit.Session.Account.{attach}
use pyconduit.Session.History.{init}
use pyconduit.Session.Manager.Registry.{IsRegistry}
use pyconduit.Socket.{Request, admitted, handshake, Server, handle_ws}
use pyconduit.Socket.Pump.{frame, unreadable, on_frame, serve}
use pyconduit.Socket.Laws.{handshake-proxy_identity}
use pyconduit.Socket.Reading.{on_frame-unparsed}
use pyconduit.Socket.Endings.{serve-detached, attach-keeps_failed, handle_ws-IsRegistry}
use pyconduit.Audit.{audit_line}
use pyconduit.Audit.Laws.{IsPrintable, audit_line-IsPrintable}
use pyconduit.Session.Client.{Asked, on_frame-Asked}
use pyconduit.Tests.Fixtures.{env, deaf, settings, python, start, alice}
use pyconduit.Tests.Frames.{mapper, alice_id, joining_raw}
use pyconduit.Tests.Sessions.{opened, opened-Inv}
use pyconduit.Tests.Managers.{offline, no_accounts, no_accounts-IsRegistry}

abbrev pub request : Request
request = record {
  headers = ("X-Remote-User", "alice") ∷ [];
  origin = some "https://chat.example";
  peer = some "10.0.0.1";
  query_user = none;
}

handshake-proxy_identity_example :
    (true ≡ true)
    × (last_header python "X-Remote-User" request.headers ≡ some alice_id.username)
    × (Dict.get alice_id.username mapper.users ≡ some alice_id.jid)
    × (Dict.get alice_id.jid mapper.credentials ≡ some alice_id.password)
unfolding handshake extract_username resolve origin_allowed client_ip lowered lowered_from Dict.get
    Dict.put string_eq
handshake-proxy_identity_example =
    handshake-proxy_identity settings python mapper request alice_id (λ e. cc e) refl

on_frame-unparsed_example :
    (text : String) × (protocol_error "frame must be a JSON object" ≡ protocol_error text)
    × (on_frame env alice (int 3) opened
        ≡ send env alice (server_error "protocol" text null) opened)
unfolding parse_client_message
on_frame-unparsed_example =
    on_frame-unparsed env alice (int 3) opened (protocol_error "frame must be a JSON object") refl

serve-detached_example :
    contains (serve env alice (frame joining_raw ∷ unreadable ∷ []) opened).subscribers alice
    ≡ false
serve-detached_example =
    serve-detached env alice "alice@example" false (frame joining_raw ∷ unreadable ∷ []) opened
      opened-Inv

attach-keeps_failed_example :
    ((attach deaf alice (start deaf true)).0 ≡ raise send_error)
    × (contains (attach deaf alice (start deaf true)).1.subscribers alice ≡ true)
unfolding init
attach-keeps_failed_example = attach-keeps_failed deaf alice (start deaf true) refl refl

abbrev server : Server env
server = record { manager = no_accounts; audit = [] }

handle_ws-IsRegistry_example :
    IsRegistry env (handle_ws env offline mapper request 7 (frame joining_raw ∷ []) server).manager
handle_ws-IsRegistry_example =
    handle_ws-IsRegistry env offline mapper request 7 (frame joining_raw ∷ []) server
      no_accounts-IsRegistry

abbrev stranger : Request
stranger = record request { headers = [] }

stranger_denied :
    (i : Identity) (ip : String) → handshake env.config env.python mapper stranger ≢ admitted i ip
unfolding handshake extract_username origin_allowed lowered lowered_from Dict.get string_eq
stranger_denied i ip e = cc e

audit_line-IsPrintable_example :
    IsPrintable (audit_line python "2024-01-01" (auth_denied null "10.0.0.1" "origin not allowed"))
audit_line-IsPrintable_example =
    audit_line-IsPrintable python "2024-01-01" (auth_denied null "10.0.0.1" "origin not allowed")

-- Alice greets Carol.
abbrev greeting_raw : Json
greeting_raw =
    object (("type", str "send_message") ∷ ("to", str "carol@example") ∷ ("body", str "hi") ∷ [])

on_frame-Asked_example : Asked env opened.client (on_frame env alice greeting_raw opened).1.client
on_frame-Asked_example = on_frame-Asked env alice greeting_raw opened
