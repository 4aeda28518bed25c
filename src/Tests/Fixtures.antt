-- ===== src/Tests/Fixtures.antt =====
-- A fake client as in tests/test_session.py, and the accounts and frames that the runs begin with.
use pyconduit.Base.{ℕ, Bool, true, false, [], ◌∷◌, none}
use Prim.Native.Nat.{◌*◌}
use pyconduit.Json.{Json, str}
use pyconduit.Errors.{Python}
use pyconduit.Config.{Config}
use pyconduit.Interface.{XmppClient, Reply, done, failed}
use pyconduit.Protocol.{ClientMessage}
use pyconduit.Session.World.{Env, W, Subscriber}
use pyconduit.Session.Commands.{ltb}
use pyconduit.Session.History.{init}

-- The client's state is whether it is connected.
abbrev pub answered : {E A : Type 0} → A → Bool → Reply E Bool A
answered a c = record { outcome = done a; state = c; events = [] }

-- `takes` is whether it accepts messages, `waits` whether its `disconnect` waits.
abbrev pub fake_client : Bool → Bool → XmppClient
fake_client takes waits = record {
  State = Bool;
  is_connected = λ c. c;
  connect = λ c. answered tt true;
  disconnect = λ c. answered tt false;
  disconnect_waits = λ c. waits;
  disconnect_cancelled = λ c. c;
  send_message = λ to body c. record {
    outcome = elim takes [ true ↦ done "m1" | false ↦ failed "not connected" ];
    state = c;
    events = [];
  };
  set_presence = λ show status c. answered tt c;
  fetch_history = λ jid before size c. answered ([], true) c;
  add_contact = λ jid name c. answered tt c;
  remove_contact = λ jid c. answered tt c;
  respond_subscription = λ jid accept c. answered tt c;
  join_room = λ room nick c. answered tt c;
  leave_room = λ room c. answered tt c;
  send_muc = λ room body c. answered "m2" c;
  disco_rooms = λ server c. answered (record { server = server; rooms = []; online = true }) c;
}

abbrev pub settings : Config ℕ
settings = record {
  server = record {
    host = "127.0.0.1";
    port = 8080;
    brand_title = "PyConduit";
    allowed_origins = [];
    client_ip_header = none;
    security_headers = true;
    max_message_chars = 5;
  };
  auth = record {
    mode = "proxy";
    header = "X-Remote-User";
    dev_default_user = "dev";
    users_file = "users.json";
    credentials_file = "credentials.json";
  };
  xmpp = record {
    host = "localhost";
    port = 5222;
    tls = false;
    verify_certs = false;
    idle_timeout_seconds = 60;
    reconnect = record { initial_seconds = 1; max_seconds = 60; factor = 2 };
  };
  muc = record { discovery_servers = "muc.example" ∷ [] };
  history = record { page_size = 50 };
  ui = record { sound_enabled_default = true };
  audit = record { destinations = [] };
}

abbrev pub python : Python
python = record { lower = λ s. s; repr = λ s. s; digits = λ n. "n"; show = λ v. "v" }

abbrev pub env_of : Bool → Bool → Env
env_of takes waits = record {
  xmpp = fake_client takes waits;
  float = record { Number = ℕ; times = λ a b. a * b; less = ltb };
  config = settings;
  python = python;
  accepts = λ sent s frame. true;
  clock = λ sent. "2024-01-01T00:00:00Z";
}

abbrev pub env : Env
env = env_of true false

abbrev pub alice : Subscriber
alice = record { username = "alice"; ip = "10.0.0.1"; id = 0 }

abbrev pub bob : Subscriber
bob = record { username = "bob"; ip = "10.0.0.2"; id = 1 }

abbrev pub start : (E : Env) → E.xmpp.State → W E
start E c = init E "alice@example" "secret" c

abbrev pub message : Json → ClientMessage
message body = record {
  type = "send_message";
  payload = ("to", str "carol@example") ∷ ("body", body) ∷ [];
}

-- An environment in which no tab can be sent anything.
abbrev pub deaf : Env
deaf = record env { accepts = λ sent s frame. false }
