-- ===== src/Lib.antt =====
-- PyConduit, a web chat client for XMPP: a model of its Python program in src/pyconduit/ and of what
-- makes it correct. A browser tab opens a WebSocket, is authenticated by a header that a proxy sets,
-- and is attached to the account of its JID, which all tabs of that JID share. The account holds one
-- XMPP client, sends each tab JSON frames about what the client sees, and runs the tabs' commands.
--
-- Where the parts are modelled:
--   Protocol, Protocol/Frames   src/pyconduit/protocol.py: parse_client_message, ClientMessage.require
--                               and the server_... frames
--   Headers, Auth, Security     src/pyconduit/auth.py and src/pyconduit/web/security.py: extract_username,
--                               AuthMapper.resolve, client_ip, origin_allowed
--   Config, Interface           the settings of src/pyconduit/config.py, and the events and the
--                               abstract client of src/pyconduit/xmpp/interface.py
--   Config/Loading              load_config of src/pyconduit/config.py
--   Session/World               the state of Account in src/pyconduit/session/account.py and Subscriber
--                               of src/pyconduit/session/hub.py: _broadcast, _schedule_reconnect, _cancel_idle
--   Session/Events              Account._on_event
--   Session/Account             Account.attach, detach, ensure_connected, _send_snapshot
--   Session/Commands, .../Disco, Session/Dispatch
--                               Account.handle_command and its ten handlers _cmd_...
--   Session/Lifecycle           Account._reconnect_loop, _idle_countdown, close
--   Session/History             Account.__init__, and all that can happen to an account as a step
--                               relation
--   Session/Steps               what a property needs of each operation for every step to keep it
--   Session/Private             whose tabs an account holds and has sent frames to
--   Session/Unattended          an account between its last tab and its end
--   Session/Rejoin              the rooms that _on_event joins again
--   Session/Client              what a tab's frames may ask of the client
--   Session/Served              whether an account is connected or about to be, over any client whose
--                               requests do not end its session
--   Session/View                what a tab knows of contacts and presence from the frames it was sent
--   Session/Manager             AccountManager of src/pyconduit/session/manager.py
--   Socket, Socket/Pump         handle_ws of src/pyconduit/web/ws.py: the handshake, the loop over frames
--                               and the detach after it
--   Web/Sockets, Web/History    handle_ws cut at its waits, and all that can happen to the application,
--                               with any number of sockets, as a step relation
--   Web/Heap, Web/Private       what the registry's operations do to each account of it, and whose
--                               tabs the application's accounts hold
--   Web/Wiring, Web/Responses, Web/Shutdown
--                               main of src/pyconduit/__main__.py, and create_app of
--                               src/pyconduit/web/app.py with its lifespan and its middleware, which
--                               sets SECURITY_HEADERS of src/pyconduit/web/security.py
--   Xmpp/Library, Xmpp/Client   slixmpp as a record of operations, and SlixmppClient.__init__ of
--                               src/pyconduit/xmpp/slixmpp_client.py
--   Xmpp/Connection             SlixmppClient.connect, disconnect, the handlers of a session, and the
--                               client as one that the session layer takes
--   Xmpp/Presence, .../Roster, .../Messages, .../Mentions, .../Rooms, .../History
--                               the other methods and handlers of SlixmppClient, in its order
--   Live, Live/Contacts, Live/Served
--                               the two together: an account over the slixmpp client, what may happen to
--                               both as a step relation, and from a stanza that arrives to what a tab
--                               knows
--   Audit, Audit/Clean          src/pyconduit/audit.py: the lines of AuditLog.emit in the text format
--   Audit/Sinks                 AuditLog.__init__, emit and close over files and the standard output
--   Base, Json, Errors          Python's dict, str methods, JSON values and exceptions
--   Tests                       a concrete client, after tests/test_session.py, and runs of the code
-- Proofs stand in the child modules: Laws, Parsing, Broadcast, Kept, Invariant, Sending, Rooms, Known,
-- Empty, Ends, Registry, Expiry, Reading, Endings, Snapshot, Listing, Replay, Shown, Matches, Pages,
-- Link, Waiting, Outcome, Returns, Stale, Requests, Frames of Session/Account, and those of Session/View and Web/Private.
--
-- How the code is read. A coroutine is a function from the state to a result and a state; what it
-- did before a raise is kept. It runs to its end before the next begins, but for the sleeps of the
-- two tasks: between a task's steps anything of Session/History may happen. A socket's handler is
-- run whole in Socket, and in Web/Sockets one frame at a time, with anything of Web/History between
-- two frames. The code's own locks guard the registry and the connection that `attach` makes; the
-- reconnect loop's connect takes no lock, and is run whole all the same. Sets and dicts are lists
-- in insertion order, with each element once as an invariant. A tab's send is the environment's
-- `accepts`, which may refuse any frame; a send to a socket that is closing, which returns and
-- sends nothing, counts as sent. The XMPP client is a record of operations on a state of its own
-- that may change its state, let events through and raise at any call; only its connect lets a
-- Connected event through, and its state may also move on its own. Of slixmpp nothing is assumed:
-- what it delivers while connect waits for a session is a list of arrivals, and between any other
-- request and its answer no handler runs. Integers of the settings are natural numbers and floats
-- are an abstract type with a product and a comparison. Python's str.lower, repr and the digits of
-- a number, and re's word characters and case, are parameters. JSON numbers are kept apart from
-- Booleans as dict keys, unlike Python's True and 1. Loops are over lists and no definition needs
-- fuel.
--
-- Not modelled: slixmpp itself, its plugins and TLS settings; the merging of settings, which
-- pydantic does; FastAPI, Starlette, uvicorn and logging, which src/pyconduit/web/app.py and
-- src/pyconduit/__main__.py call, and src/pyconduit/web/routes.py, which answers with what these
-- give; and the browser's own code in src/pyconduit/static.
pub mod Base
pub mod Json
pub mod Errors
pub mod Protocol
pub mod Headers
pub mod Auth
pub mod Security
pub mod Config
pub mod Interface
pub mod Session
pub mod Socket
pub mod Audit
pub mod Xmpp
pub mod Web
pub mod Live
pub mod Tests
