-- ===== src/Tests/Tabs.antt =====
-- What one tab is sent.
use pyconduit.Base.{true, none, List, [], ◌∷◌, map, length, ◌↔◌, ◌≡◌, refl}
use mathlib.Core.List.{Permᴰ}
use pyconduit.Errors.{ok}
use pyconduit.Protocol.Frames.{server_disco_servers}
use pyconduit.Session.World.{W, add, no_timer, session_open, send}
use pyconduit.Session.Account.{attach}
use pyconduit.Session.Account.Snapshot.{attach-snapshot}
use pyconduit.Session.Account.Frames.{greeting, IsOfSnapshot}
use mathlib.Core.List.Memᴰ.{Memᴰ}
use pyconduit.Protocol.Frames.{server_presence}
use pyconduit.Session.Commands.Disco.{ServerEntry, entry_json, discover, cmd_disco_servers}
use pyconduit.Session.Commands.Listing.{cmd_disco_servers-lists}
use pyconduit.Session.History.{init, Step, here}
use pyconduit.Session.Events.{on_event}
use pyconduit.Session.View.{view_of, known}
use pyconduit.Session.View.Sync.{begun, then_next, view_of-refines}
use pyconduit.Interface.{Event, notice, presence_update}
use pyconduit.Interface.{connected, done}
use pyconduit.Json.{Json, str}
use pyconduit.Session.Rejoin.{asked_after, on_event-rejoins}
use pyconduit.Tests.Fixtures.{env, start, alice, bob}

abbrev joined : W env
joined = start env true

-- An account that knows a contact, its presence, and the occupants of a room.
abbrev known_room : W env
known_room = record joined {
  roster = str "carol@example" ∷ [];
  presence = ("carol@example", server_presence "carol@example" "online" none) ∷ [];
  joined_rooms = (str "r@muc.example", str "alice") ∷ [];
  muc_rosters = (str "r@muc.example", str "alice" ∷ []) ∷ [];
}

attach-snapshot_example :
    (frames : List Json) × (attach env alice known_room ≡ (
      ok tt,
      record known_room {
        subscribers = add alice [];
        idle_task = no_timer;
        sent = map (λ frame. (alice, frame)) frames;
        audit = session_open "alice" "alice@example" "10.0.0.1" (length (add alice [])) ∷ [];
      },
    ))
    × ((rest : List Json) × (frames ≡ greeting env "alice" known_room ∷ rest))
    × ((frame : Json) → Memᴰ frame frames ↔ IsOfSnapshot env "alice" known_room frame)
unfolding init
attach-snapshot_example = attach-snapshot env alice (λ sent frame. refl) known_room refl

cmd_disco_servers-lists_example :
    (payload : List ServerEntry) × Permᴰ
      (map (λ e. e.server) payload)
      env.config.muc.discovery_servers
    × (cmd_disco_servers env alice joined
        ≡ send env alice
            (server_disco_servers (map entry_json payload))
            (discover env env.config.muc.discovery_servers joined).1)
cmd_disco_servers-lists_example = cmd_disco_servers-lists env alice joined

abbrev here_now : Event
here_now =
    notice (presence_update (record { jid = "carol@example"; show = "online"; status = none }))

-- Alice's tab attaches, Bob's does, and Carol comes online.
view_of-refines_example :
    view_of env alice (on_event env here_now (attach env bob (attach env alice joined).1).1).1
    ≡ known env (on_event env here_now (attach env bob (attach env alice joined).1).1).1
unfolding init
view_of-refines_example =
    view_of-refines env alice (λ sent frame. refl) "alice@example" "secret" true joined
      (on_event env here_now (attach env bob (attach env alice joined).1).1).1 here tt
      (then_next (then_next begun (Step.attaches bob (attach env alice joined).1) (λ same. cc))
        (Step.happens here_now (attach env bob (attach env alice joined).1).1) tt)

-- The client has been connected, and there is a room to join again.
abbrev lost_rooms : W env
lost_rooms = record joined { joined_rooms = (str "r@muc.example", str "alice") ∷ [] }

on_event-rejoins_example :
    ((on_event env (connected "alice@example") lost_rooms).1.client
      ≡ asked_after env (done tt) lost_rooms.joined_rooms true)
    × ((on_event env (connected "alice@example") lost_rooms).1.joined_rooms
        ≡ lost_rooms.joined_rooms)
unfolding init
on_event-rejoins_example = on_event-rejoins env "alice@example" lost_rooms
