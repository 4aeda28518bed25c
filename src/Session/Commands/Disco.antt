-- ===== src/Session/Commands/Disco.antt =====
-- src/pyconduit/session/account.py: `_cmd_disco_servers`. The source asks the servers at once; the
-- model asks them in the order in which the source starts the queries.
use pyconduit.Base.{String, string_eq, Bool, false, List, [], ◌∷◌, map}
use pyconduit.Base.Sorting.{sort_by}
use pyconduit.Json.{Json, str, bool, array, object}
use pyconduit.Errors.{Result, ok, raise}
use pyconduit.Protocol.Frames.{server_disco_servers}
use pyconduit.Interface.{RoomEntry, DiscoveredRooms}
use pyconduit.Session.World.{Env, W, Subscriber, Action, ◌>>=◌, pure, attempt, send}
use pyconduit.Session.Events.{call}

-- An entry of the payload.
pub record ServerEntry : Type 0 where
  pub server : String
  pub online : Bool
  pub rooms : List RoomEntry

abbrev pub room_json : RoomEntry → Json
room_json r = object (("jid", str r.jid) ∷ ("name", str r.name) ∷ [])

abbrev pub entry_json : ServerEntry → Json
entry_json e = object (
    ("server", str e.server)
    ∷ ("online", bool e.online)
    ∷ ("rooms", array (map room_json e.rooms))
    ∷ [])

module _ (E : Env) where
  unfoldable pub discover : List String → Action (W E) (List (Result DiscoveredRooms))
  discover [] = pure []
  discover (s ∷ ss) = do
    res ← attempt (call E (E.xmpp.disco_rooms s))
    rest ← discover ss
    pure (res ∷ rest)

  unfoldable pub server_entry : String → Result DiscoveredRooms → ServerEntry
  server_entry server (ok res) = record {
    server = server;
    online = res.online;
    rooms = sort_by (λ r. E.python.lower r.name) res.rooms;
  }
  server_entry server (raise _) = record { server = server; online = false; rooms = [] }

  -- The loop over `zip(servers, results, strict=True)`; both have the same length.
  unfoldable pub server_entries : List String → List (Result DiscoveredRooms) → List ServerEntry
  unfolding server_entry
  server_entries (s ∷ ss) (r ∷ rs) = server_entry s r ∷ server_entries ss rs
  server_entries _ _ = []

  unfoldable pub cmd_disco_servers : Subscriber → Action (W E) (Unit {0})
  cmd_disco_servers sub = do
    results ← discover E.config.muc.discovery_servers
    send E sub (
        server_disco_servers (
          map entry_json (
            sort_by (λ e. E.python.lower e.server)
              (server_entries E.config.muc.discovery_servers results))))
