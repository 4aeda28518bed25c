-- ===== src/Xmpp/Client.antt =====
-- src/pyconduit/xmpp/slixmpp_client.py: the state of the client, and its calls in sequence.
use pyconduit.Base.{if◌then◌else◌, ◌==◌, String, string_eq, Bool, false, List, [], ◌∷◌, ◌++◌}
use pyconduit.Base.Dict.{Dict}
use pyconduit.Json.{Json}
use pyconduit.Interface.{Answer, done, failed, Reply, Notice}
use pyconduit.Xmpp.Library.{Slixmpp}

-- `_session_failed`: None, or a future that is not done, cancelled, or has an exception, by its text.
pub data Failure : Type 0 where
  no_future pending cancelled : Failure
  set_exception : String → Failure

pub record Client (L : Type 0) : Type 0 where
  pub bare : String
  pub connected : Bool
  pub joined_rooms : Dict String Json
  pub presence_resources : Dict String (Dict String String)
  pub session_ready : Bool
  pub session_failed : Failure
  pub lib : L

-- `SlixmppClient.__init__`, of the bare address and the library's own client.
unfoldable pub new_client : {L : Type 0} → String → L → Client L
new_client bare lib = record {
  bare = bare;
  connected = false;
  joined_rooms = [];
  presence_resources = [];
  session_ready = false;
  session_failed = no_future;
  lib = lib;
}

-- A method of the client, with the events that it emits; after a raise the state is kept.
abbrev pub Method : Type 0 → Type 0 → Type 0
Method C A = C → Reply Notice C A

module _ {C : Type 0} where
  abbrev pub pure : {A : Type 0} → A → Method C A
  pure a c = record { outcome = done a; state = c; events = [] }

  abbrev pub answer : {A : Type 0} → Answer A → Method C A
  answer r c = record { outcome = r; state = c; events = [] }

  -- A statement that cannot raise.
  abbrev pub run : (C → C) → Method C (Unit {0})
  run f c = pure tt (f c)

  abbrev pub gets : {A : Type 0} → (C → A) → Method C A
  gets f c = pure (f c) c

  abbrev pub emit : Notice → Method C (Unit {0})
  emit n c = record { outcome = done tt; state = c; events = n ∷ [] }

  abbrev pub after_events : {A : Type 0} → List Notice → Reply Notice C A → Reply Notice C A
  after_events es r = record { outcome = r.outcome; state = r.state; events = es ++ r.events }

  abbrev pub resume :
      {A B : Type 0} → Answer A → C → List Notice → (A → Method C B) → Reply Notice C B
  resume (done a) c es f = after_events es (f a c)
  resume (failed text) c es f = record { outcome = failed text; state = c; events = es }

  infixl 5 ◌>>=◌ ◌>>◌
  abbrev pub ◌>>=◌ : {A B : Type 0} → Method C A → (A → Method C B) → Method C B
  ◌>>=◌ m f c = let r = m c in resume r.outcome r.state r.events f

  abbrev pub ◌>>◌ : {B : Type 0} → Method C (Unit {0}) → Method C B → Method C B
  m >> k = m >>= λ _. k

module _ (X : Slixmpp) where
  abbrev pub S : Type 0
  S = Client X.State

  -- A call of the library.
  abbrev pub call : {A : Type 0} → (X.State → A × X.State) → Method S A
  call op c = let (a, lib) = op c.lib in pure a (record c { lib = lib })

  abbrev pub transmit : (X.State → X.State) → Method S (Unit {0})
  transmit op = run λ c. record c { lib = op c.lib }

  -- `JID(v).bare`
  abbrev pub bare_of : Json → Method S String
  bare_of v = do j ← answer (X.parse_jid v); pure j.bare

-- `v or w`, of texts
abbrev pub or_text : String → String → String
or_text v w = if v == "" then w else v
