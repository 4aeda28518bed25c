-- ===== src/Interface.antt =====
-- src/pyconduit/xmpp/interface.py: the events of an XMPP client, and the client itself as a record
-- of operations on a state of its own, which the session layer takes as a parameter.
use pyconduit.Base.{ℕ, String, Bool, Option, List}
use pyconduit.Json.{Json}

pub record IncomingMessage : Type 0 where
  pub from_jid : String
  pub to_jid : String
  pub body : String
  pub msg_id : String
  pub timestamp : String

pub record DeliveryFailure : Type 0 where
  pub to_jid : String
  pub error : String
  pub msg_id : Option String

pub record PresenceUpdate : Type 0 where
  pub jid : String
  pub show : String
  pub status : Option String

pub record RosterItem : Type 0 where
  pub jid : String
  pub name : String
  pub subscription : String

pub record ArchivedMessage : Type 0 where
  pub from_jid : String
  pub to_jid : String
  pub body : String
  pub msg_id : String
  pub timestamp : String

pub record MucJoined : Type 0 where
  pub room : String
  pub nick : Json
  pub subject : Option String

pub record MucMessage : Type 0 where
  pub room : String
  pub nick : String
  pub body : String
  pub msg_id : String
  pub timestamp : String
  pub is_self : Bool
  pub mentions_me : Bool

pub record MucOccupants : Type 0 where
  pub room : String
  pub occupants : List Json

pub record MucPresence : Type 0 where
  pub room : String
  pub nick : String
  pub joined : Bool

pub record RoomEntry : Type 0 where
  pub jid : String
  pub name : String

pub record DiscoveredRooms : Type 0 where
  pub server : String
  pub rooms : List RoomEntry
  pub online : Bool

-- Every event but `Connected`.
pub data Notice : Type 0 where
  disconnected : String → Notice
  incoming_message : IncomingMessage → Notice
  delivery_failure : DeliveryFailure → Notice
  presence_update : PresenceUpdate → Notice
  roster_snapshot : List RosterItem → Notice
  subscription_request : String → Notice
  muc_joined : MucJoined → Notice
  muc_message : MucMessage → Notice
  muc_occupants : MucOccupants → Notice
  muc_presence : MucPresence → Notice

pub data Event : Type 0 where
  connected : String → Event
  notice : Notice → Event

-- A call returns a value or raises an exception, given by its text.
pub data Answer (A : Type 0) : Type 0 where
  done : A → Answer A
  failed : String → Answer A

-- What a call answers, the client's state after it, and the events that it let through meanwhile.
pub record Reply (E S A : Type 0) : Type 0 where
  pub outcome : Answer A
  pub state : S
  pub events : List E

-- Only `connect` lets a `Connected` through. Arguments that come from a tab are JSON values, as the
-- session layer hands them on unread.
pub record XmppClient : Type 1 where
  pub State : Type 0
  pub is_connected : State → Bool
  pub connect : State → Reply Event State (Unit {0})
  pub disconnect : State → Reply Notice State (Unit {0})
  -- Whether `disconnect` waits for anything, and what is left when the wait is cancelled.
  pub disconnect_waits : State → Bool
  pub disconnect_cancelled : State → State
  pub send_message : Json → Json → State → Reply Notice State String
  pub set_presence : Json → Json → State → Reply Notice State (Unit {0})
  pub fetch_history : Json → Json → ℕ → State → Reply Notice State (List ArchivedMessage × Bool)
  pub add_contact : Json → Json → State → Reply Notice State (Unit {0})
  pub remove_contact : Json → State → Reply Notice State (Unit {0})
  pub respond_subscription : Json → Bool → State → Reply Notice State (Unit {0})
  pub join_room : Json → Json → State → Reply Notice State (Unit {0})
  pub leave_room : Json → State → Reply Notice State (Unit {0})
  pub send_muc : Json → Json → State → Reply Notice State String
  pub disco_rooms : String → State → Reply Notice State DiscoveredRooms
