-- ===== src/Tests/Stanzas.antt =====
-- Runs of the slixmpp client over a library that answers every request, and over plain letters.
use pyconduit.Base.{
  ℕ, String, string_eq, nat_eq, ◌==◌, true, false, [], ◌∷◌, Option, none, some, ◌≡◌, ◌↔◌, refl,
}
use pyconduit.Base.Dict
use pyconduit.Interface.{done}
use pyconduit.Xmpp.Library.{
  Slixmpp, Letters, Jid, returned, PresenceStanza, ArchiveEntry, other, session_start,
}
use pyconduit.Xmpp.Client.{S, new_client}
use pyconduit.Xmpp.Presence.{get_or, is_ignored, on_presence, update_of}
use pyconduit.Xmpp.Presence.Replay.{devices, replay, on_presences, on_presences_refines}
use pyconduit.Xmpp.Presence.Shown.{IsShown}
use pyconduit.Xmpp.Library.{presence_stanza}
use pyconduit.Live.{over, arrives}
use pyconduit.Live.Contacts.{arrives-IsShown}
use pyconduit.Protocol.Frames.{server_presence}
use pyconduit.Session.World.{W, send, cancel_idle, log}
use pyconduit.Session.Account.{attach, send_all, snapshot, ensure_connected}
use pyconduit.Session.History.{init, here}
use pyconduit.Session.View.{view_of}
use pyconduit.Session.View.Sync.{begun}
use pyconduit.Tests.Fixtures.{env, alice}
use pyconduit.Xmpp.Mentions.Matches.{Mentions}
use pyconduit.Xmpp.Connection.{connect}
use pyconduit.Xmpp.Connection.Waiting.{starts, fails}
use pyconduit.Xmpp.Connection.Returns.{connect-done_iff}
use pyconduit.Xmpp.Connection.Stale.{renewed, on_presence-stale}

abbrev jid_of : String → String → Jid
jid_of bare resource = record { bare = bare; resource = resource }

abbrev entry : String → ArchiveEntry ℕ
entry body = record {
  id = "a1";
  sender = jid_of "carol@example" "phone";
  receiver = jid_of "alice@example" "web";
  body = body;
  stamp = other "2024-01-01T00:00:00Z";
}

-- Its state is the number of the next id.
abbrev pub library : Slixmpp
library = record {
  State = ℕ;
  Datetime = ℕ;
  as_utc = λ d. d;
  utc_iso = λ d. "2024-01-01T00:00:00Z";
  now = λ n. "2024-01-01T00:00:00Z";
  parse_jid = λ v. done (jid_of "carol@example" "");
  new_id = λ n. ("m1", ℕ.suc n);
  transmit = λ stanza n. n;
  start = λ n. (n, session_start ∷ []);
  stop = λ n. n;
  get_roster = λ n. (returned tt, n);
  client_roster = λ n. [];
  update_roster = λ jid name n. n;
  del_roster_item = λ jid n. (returned tt, n);
  retrieve = λ jid before limit n.
      (returned (record { results = entry "" ∷ entry "hello" ∷ []; complete = false }), n);
  join_muc_wait = λ room nick n. (done tt, n);
  leave_muc = λ room nick n. n;
  muc_roster = λ room n. done [];
  get_jid_property = λ room nick prop n. done none;
  get_items = λ server n. (returned [], n);
}

abbrev pub plain : Letters
plain = record { is_word = λ x. x == b'a'; same_letter = λ x y. x == y }

abbrev client : S library
client = new_client "alice@example" 0

abbrev seen : String → String → PresenceStanza
seen type device = record {
  type = type;
  sender = jid_of "carol@example" device;
  show = "";
  status = "";
  muc_user = false;
}

-- Carol is there from her phone and from her desk.
abbrev two : S library
two = record client {
  presence_resources = ("carol@example", ("phone", "online") ∷ ("desk", "away") ∷ []) ∷ [];
}

on_presences_refines_example :
    devices (on_presences (seen "available" "phone" ∷ []) client) "carol@example" "phone"
    ≡ replay client (seen "available" "phone" ∷ []) (λ _ _. none) "carol@example" "phone"
unfolding new_client
on_presences_refines_example =
    on_presences_refines (seen "available" "phone" ∷ []) client "carol@example" "phone" refl

connect-done_iff_example :
    (((connect library plain client).outcome ≡ done tt)
      ↔ ((starts (session_start ∷ []) ≡ true) × (fails (session_start ∷ []) ≡ false)))
    × ((connect library plain client).outcome ≡ done tt
        → (connect library plain client).state.connected ≡ true)
connect-done_iff_example = connect-done_iff library plain (λ lib text. cc) client

on_presence-stale_example :
    let r = on_presence (seen "unavailable" "phone") (renewed library plain "lost" two) in
    (devices r.state "carol@example" "desk" ≡ some "away")
    × ((told : String) × (status : Option String) × (r.events
          ≡ update_of "carol@example" (told, status) ∷ [])
        × IsShown (Dict.values (get_or [] "carol@example" r.state.presence_resources)) told)
unfolding is_ignored new_client string_eq Dict.get
on_presence-stale_example =
    on_presence-stale library plain "lost" two (seen "unavailable" "phone") "desk" "away"
      ((refl, (refl, tt)), tt) refl refl (λ e. cc) refl

-- An account over the client, which is connected, and a tab that has just attached.
abbrev quiet : W (over library plain env)
quiet = init (over library plain env) "alice@example" "secret" (record two { connected = true })

abbrev watching : W (over library plain env)
watching = (attach (over library plain env) alice quiet).1

arrives-IsShown_example :
    let after = arrives library plain env (presence_stanza (seen "available" "phone")) watching in
    (show : String) × (status : Option String) × ((view_of
          (over library plain env)
          alice
          after).presence
        "carol@example"
      ≡ some (server_presence "carol@example" show status))
    × IsShown (Dict.values (get_or [] "carol@example" after.client.presence_resources)) show
unfolding init log attach send_all snapshot send ensure_connected cancel_idle is_ignored new_client
    string_eq
arrives-IsShown_example =
    arrives-IsShown library plain env alice (λ sent frame. refl) (seen "available" "phone")
      "alice@example" "secret" (record two { connected = true }) quiet watching here tt begun refl
