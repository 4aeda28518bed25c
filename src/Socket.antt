-- ===== src/Socket.antt =====
-- src/pyconduit/web/ws.py: a WebSocket from its handshake to its end.
pub mod Pump
pub mod Reading
pub mod Laws
pub mod Endings
use pyconduit.Base.{
  ℕ, String, string_eq, Bool, true, false, List, [], ◌∷◌, ◌++◌ as concat, Option, none, some,
  if◌then◌else◌,
}
use Prim.Native.String.{◌++◌}
use pyconduit.Base.Dict.{Dict}
use pyconduit.Json.{Json, null, str}
use pyconduit.Errors.{Error, Result, ok, raise, Python}
use pyconduit.Protocol.Frames.{server_error}
use pyconduit.Config.{Config}
use pyconduit.Auth.{Identity, AuthMapper, resolve, extract_username}
use pyconduit.Security.{client_ip, origin_allowed}
use pyconduit.Session.World.{Env, World, W, Subscriber, AuditEntry, auth_ok, auth_denied}
use pyconduit.Session.Account.{text_of}
use pyconduit.Session.Manager.{AccountManager, manager_attach, at_account}
use pyconduit.Socket.Pump.{Received, serve}

-- What is read of the handshake: `dict(websocket.headers)`, its Origin, the peer's address and
-- `?user=`.
pub record Request : Type 0 where
  pub headers : Dict String String
  pub origin : Option String
  pub peer : Option String
  pub query_user : Option String

-- How the handshake ends. Both refusals close the socket with code 1008: `rejected` before it is
-- accepted, `denied` after it has been sent the frame.
pub data Handshake : Type 0 where
  rejected : AuditEntry → Handshake
  denied : AuditEntry → Json → Handshake
  admitted : Identity → String → Handshake

-- `f"{origin!r}"`
abbrev repr_of : Python → Option String → String
repr_of py none = "None"
repr_of py (some o) = py.repr o

module _ {F : Type 0} (cfg : Config F) (py : Python) (mapper : AuthMapper) where
  abbrev pub ip_of : Request → String
  ip_of req = client_ip py req.headers req.peer cfg.server.client_ip_header

  -- `except AuthError`; the name is the one that has been read, if one has.
  abbrev deny : String → Json → Error → Handshake
  deny ip name exc =
      denied (auth_denied name ip (text_of exc))
        (server_error "auth" ("Not authorized: " ++ text_of exc) null)

  abbrev pub resolved : String → String → Result Identity → Handshake
  resolved ip username (ok identity) = admitted identity ip
  resolved ip username (raise exc) = deny ip (str username) exc

  abbrev pub extracted : String → Result String → Handshake
  extracted ip (ok username) = resolved ip username (resolve py mapper username)
  extracted ip (raise exc) = deny ip null exc

  abbrev pub user_of : Request → Result String
  user_of req =
      extract_username py cfg.auth.mode cfg.auth.header req.headers req.query_user
        cfg.auth.dev_default_user

  unfoldable pub handshake : Request → Handshake
  handshake req =
      if origin_allowed req.origin cfg.server.allowed_origins
      then extracted (ip_of req) (user_of req)
      else rejected (auth_denied null (ip_of req) ("origin not allowed: " ++ repr_of py req.origin))

-- The application's state: its accounts, and what the handler has written to the audit log.
pub record Server (E : Env) : Type 0 where
  pub manager : AccountManager E
  pub audit : List AuditEntry

module _ (E : Env) (new_client : String → String → E.xmpp.State) (mapper : AuthMapper) where
  -- After `manager.attach`: one that raises leaves the handler, before its `try`.
  abbrev pub after_attach :
      Subscriber → List Received → (ℕ × Result (Unit {0})) × AccountManager E → AccountManager E
  after_attach sub received ((i, ok _), m) =
      (at_account E new_client i tt (λ w. (tt, serve E sub received w)) m).1
  after_attach sub received ((i, raise _), m) = m

  abbrev pub after_handshake : ℕ → List Received → Server E → Handshake → Server E
  after_handshake id received s (rejected entry) = record s { audit = concat s.audit (entry ∷ []) }
  after_handshake id received s (denied entry told) = record s {
    audit = concat s.audit (entry ∷ []);
  }
  after_handshake id received s (admitted i ip) =
      let sub : Subscriber = record { username = i.username; ip = ip; id = id } in
      record {
        manager =
            after_attach sub received (manager_attach E new_client i.jid i.password sub s.manager);
        audit = concat s.audit (auth_ok i.username i.jid ip ∷ []);
      }

  -- A socket with nothing else between its frames; `id` is the tab's.
  unfoldable pub handle_ws : Request → ℕ → List Received → Server E → Server E
  handle_ws req id received s =
      after_handshake id received s (handshake E.config E.python mapper req)
