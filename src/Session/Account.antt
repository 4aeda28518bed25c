-- ===== src/Session/Account.antt =====
-- src/pyconduit/session/account.py: a tab comes and goes, and the connection is made.
pub mod Frames
pub mod Snapshot
use pyconduit.Base.{
  String, string_eq, List, [], ◌∷◌, map, none, some, Option, is_empty, if◌then◌else◌, length,
  ◌++◌ as concat,
}
use Prim.Native.String.{◌++◌}
use pyconduit.Base.Dict
use pyconduit.Base.Dict.{Dict}
use pyconduit.Json.{Json, null, str, json_eq}
use pyconduit.Errors.{Error, client_error, protocol_error, auth_error, Result, ok, raise}
use pyconduit.Protocol.Frames.{
  server_error, server_ready, server_roster, server_muc_joined, server_muc_occupants,
}
use pyconduit.Session.World.{
  Env, W, Subscriber, Action, ◌>>=◌, ◌>>◌, run, gets, send, broadcast, log, schedule_reconnect,
  cancel_idle, start_idle_timer, add, discard, xmpp_disconnect, session_open, session_close,
  subscriber_eq,
}
use pyconduit.Session.Events.{connect}

-- `str(exc)`, of the exceptions that carry a text
abbrev pub text_of : Error → String
text_of (protocol_error t) = t
text_of (auth_error t) = t
text_of (client_error t) = t
text_of _ = ""

module _ (E : Env) where
  -- The handler of a failed `connect`.
  abbrev pub connect_failed : String → W E → W E
  connect_failed exc w = schedule_reconnect E (
      broadcast E (server_error "connection" ("Cannot reach chat server: " ++ exc) null)
        (log E (xmpp_disconnect w.jid ("connect failed: " ++ exc)) w))

  abbrev pub after_connect : Result (Unit {0}) × W E → W E
  after_connect (ok _, w) = w
  after_connect (raise e, w) = connect_failed (text_of e) w

  unfoldable pub ensure_connected : W E → W E
  ensure_connected w = if E.xmpp.is_connected w.client then w else after_connect (connect E w)

  unfoldable pub send_all : Subscriber → List Json → Action (W E) (Unit {0})
  send_all sub [] w = (ok tt, w)
  send_all sub (frame ∷ frames) w =
      let rest = send_all sub frames in (send E sub frame >>= λ _. rest) w

  abbrev pub occupants_frames : Json → Option (List Json) → List Json
  occupants_frames room none = []
  occupants_frames room (some []) = []
  occupants_frames room (some (o ∷ os)) = server_muc_occupants room (o ∷ os) ∷ []

  unfoldable pub room_frames : Dict Json (List Json) → Dict Json Json → List Json
  room_frames occupants [] = []
  room_frames occupants ((room, nick) ∷ rooms) =
      server_muc_joined room nick none
      ∷ concat (occupants_frames room (Dict.get room occupants)) (room_frames occupants rooms)

  -- The first frame of `_send_snapshot`.
  abbrev pub ready_frame : String → W E → Json
  ready_frame username w =
      server_ready w.jid username E.config.server.brand_title E.config.ui.sound_enabled_default
        (map str E.config.muc.discovery_servers) E.config.server.max_message_chars

  -- The frames of `_send_snapshot`, in their order.
  unfoldable pub snapshot : String → W E → List Json
  unfolding room_frames
  snapshot username w =
      ready_frame username w
      ∷ concat (if is_empty w.roster then [] else server_roster w.roster ∷ [])
          (concat (Dict.values w.presence) (room_frames w.muc_rosters w.joined_rooms))

  unfoldable pub attach : Subscriber → Action (W E) (Unit {0})
  attach sub = do
    run (cancel_idle E)
    run λ w. record w { subscribers = add sub w.subscribers }
    run ensure_connected
    frames ← gets (snapshot sub.username)
    send_all sub frames
    run λ w. log E (session_open sub.username w.jid sub.ip (length w.subscribers)) w

  abbrev pub start_if_empty : W E → W E
  start_if_empty w = if is_empty w.subscribers then start_idle_timer E w else w

  unfoldable pub detach : Subscriber → W E → W E
  detach sub w =
      let left = record w { subscribers = discard sub w.subscribers } in
      start_if_empty
        (log E (session_close sub.username left.jid sub.ip (length left.subscribers)) left)
