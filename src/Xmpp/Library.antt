-- ===== src/Xmpp/Library.antt =====
-- What src/pyconduit/xmpp/slixmpp_client.py uses of slixmpp, as a record of operations on a state
-- of the library's own: nothing is assumed of them.
use pyconduit.Base.{ℕ, String, Bool, Option, List}
use pyconduit.Json.{Json}
use pyconduit.Interface.{Answer}

pub record Jid : Type 0 where
  pub bare : String
  pub resource : String

-- What a request gives: an answer, IqError or IqTimeout, or another exception, by its text.
pub data IqResult (A : Type 0) : Type 0 where
  returned : A → IqResult A
  iq_failed : IqResult A
  broke : String → IqResult A

-- What is sent, in the words of the calls: a presence has `pshow` and `pstatus`.
pub data Stanza : Type 0 where
  chat groupchat : String → Json → String → Stanza
  presence : Json → Json → Stanza
  unavailable : Json → Stanza
  subscribed unsubscribed subscribe : String → Stanza

pub record MessageStanza : Type 0 where
  pub type : String
  pub sender : Jid
  pub receiver : Jid
  pub body : String
  pub id : String
  pub error_text : String
  pub error_condition : String

-- `muc_user` is whether it carries the muc#user namespace.
pub record PresenceStanza : Type 0 where
  pub type : String
  pub sender : Jid
  pub show : String
  pub status : String
  pub muc_user : Bool

pub record RosterEntry : Type 0 where
  pub jid : String
  pub name : String
  pub subscription : String

-- `fwd["delay"]["stamp"]`: a datetime with a zone or without, or anything else, by its text.
pub data Stamp (D : Type 0) : Type 0 where
  aware naive : D → Stamp D
  other : String → Stamp D

pub record ArchiveEntry (D : Type 0) : Type 0 where
  pub id : String
  pub sender : Jid
  pub receiver : Jid
  pub body : String
  pub stamp : Stamp D

pub record Archive (D : Type 0) : Type 0 where
  pub results : List (ArchiveEntry D)
  pub complete : Bool

pub record DiscoItem : Type 0 where
  pub jid : String
  pub name : String

-- What the library calls a handler of the client for.
pub data Arrival : Type 0 where
  session_start failed_auth roster_update : Arrival
  disconnected : String → Arrival
  message groupchat_message : MessageStanza → Arrival
  presence_stanza groupchat_presence presence_subscribe : PresenceStanza → Arrival

pub record Slixmpp : Type 1 where
  pub State : Type 0
  pub Datetime : Type 0
  -- `replace(tzinfo=UTC)`, and `astimezone(UTC).isoformat()`
  pub as_utc : Datetime → Datetime
  pub utc_iso : Datetime → String
  -- `_now_iso`
  pub now : State → String
  -- `JID(…)`, which refuses what is no address
  pub parse_jid : Json → Answer Jid
  pub new_id : State → String × State
  pub transmit : Stanza → State → State
  -- `connect`, with what arrives until the wait for the session is over, and `disconnect`
  pub start : State → State × List Arrival
  pub stop : State → State
  pub get_roster : State → IqResult (Unit {0}) × State
  pub client_roster : State → List RosterEntry
  pub update_roster : String → Json → State → State
  pub del_roster_item : String → State → IqResult (Unit {0}) × State
  pub retrieve : String → Json → ℕ → State → IqResult (Archive Datetime) × State
  pub join_muc_wait : String → Json → State → Answer (Unit {0}) × State
  pub leave_muc : String → Json → State → State
  pub muc_roster : String → State → Answer (List String)
  pub get_jid_property : String → String → String → State → Answer (Option String)
  pub get_items : String → State → IqResult (List DiscoItem) × State

-- What `re` knows of characters: which are of a word, and which are the same but for case.
pub record Letters : Type 0 where
  pub is_word : ℕ → Bool
  pub same_letter : ℕ → ℕ → Bool
