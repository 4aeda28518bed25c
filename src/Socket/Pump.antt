-- ===== src/Socket/Pump.antt =====
-- src/pyconduit/web/ws.py: the loop over a tab's frames, and the detach after it.
use pyconduit.Base.{List, [], ◌∷◌}
use pyconduit.Json.{Json, null}
use pyconduit.Errors.{Result, ok, raise, protocol_error}
use pyconduit.Protocol.{parse_client_message}
use pyconduit.Protocol.Frames.{server_error}
use pyconduit.Session.World.{Env, W, Subscriber, Action, ◌>>=◌, lift, send}
use pyconduit.Session.Account.{detach}
use pyconduit.Session.Dispatch.{handle_command}

-- What `receive_json` finds: a value, or a text that is no JSON, at which it raises.
pub data Received : Type 0 where
  frame : Json → Received
  unreadable : Received

module _ (E : Env) (sub : Subscriber) where
  -- `except ProtocolError`
  abbrev pub report : Result (Unit {0}) × W E → Result (Unit {0}) × W E
  report (raise (protocol_error text), w) = send E sub (server_error "protocol" text null) w
  report (r, w) = (r, w)

  -- The body of the loop once a frame is read.
  unfoldable pub on_frame : Json → Action (W E) (Unit {0})
  on_frame raw w = report ((lift (parse_client_message E.python raw) >>= handle_command E sub) w)

  -- The loop: the list ends where the socket closes. What it raises is logged and ends it too.
  abbrev pub go_on : (W E → W E) → Result (Unit {0}) × W E → W E
  go_on rest (ok _, w) = rest w
  go_on rest (raise _, w) = w

  unfoldable pub pump : List Received → W E → W E
  pump [] w = w
  pump (unreadable ∷ received) w = w
  pump (frame raw ∷ received) w = go_on (pump received) (on_frame raw w)

  -- The loop and its `finally`.
  unfoldable pub serve : List Received → W E → W E
  serve received w = detach E sub (pump received w)
