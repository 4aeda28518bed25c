-- ===== src/Audit.antt =====
-- src/pyconduit/audit.py: what an entry looks like as a line of text.
pub mod Clean
pub mod Laws
pub mod Sinks
use pyconduit.Base.{
  ℕ, String, string_eq, Bool, true, false, List, [], ◌∷◌, Option, none, some, if◌then◌else◌, ◌==◌,
}
use Prim.Native.String.{◌++◌}
use pyconduit.Base.Dict
use pyconduit.Base.Dict.{Dict}
use pyconduit.Base.Text.{strip_right}
use pyconduit.Json.{Json, null, str, int}
use pyconduit.Errors.{Python}
use pyconduit.Session.World.{
  AuditEntry, auth_ok, auth_denied, session_open, session_close, xmpp_connect, xmpp_disconnect,
}
use pyconduit.Audit.Clean.{clean}

-- `" ".join`
unfoldable pub join : List String → String
join [] = ""
join (s ∷ []) = s
join (s ∷ t ∷ ts) = s ++ (" " ++ join (t ∷ ts))

-- An event's name and the fields that `emit` is given of it.
unfoldable pub event_of : AuditEntry → String
event_of (auth_ok _ _ _) = "auth_ok"
event_of (auth_denied _ _ _) = "auth_denied"
event_of (session_open _ _ _ _) = "session_open"
event_of (session_close _ _ _ _) = "session_close"
event_of (xmpp_connect _) = "xmpp_connect"
event_of (xmpp_disconnect _ _) = "xmpp_disconnect"

abbrev tab_fields : String → String → String → ℕ → Dict String Json
tab_fields username jid ip tabs =
    ("username", str username) ∷ ("jid", str jid) ∷ ("ip", str ip) ∷ ("tabs", int tabs) ∷ []

unfoldable pub fields_of_entry : AuditEntry → Dict String Json
fields_of_entry (auth_ok username jid ip) =
    ("username", str username) ∷ ("jid", str jid) ∷ ("ip", str ip) ∷ []
fields_of_entry (auth_denied username ip reason) =
    ("username", username) ∷ ("ip", str ip) ∷ ("reason", str reason) ∷ []
fields_of_entry (session_open username jid ip tabs) = tab_fields username jid ip tabs
fields_of_entry (session_close username jid ip tabs) = tab_fields username jid ip tabs
fields_of_entry (xmpp_connect jid) = ("jid", str jid) ∷ []
fields_of_entry (xmpp_disconnect jid reason) = ("jid", str jid) ∷ ("reason", str reason) ∷ []

module _ (py : Python) where
  -- `str(value)`
  abbrev pub value_text : Json → String
  value_text (str s) = s
  value_text v = py.show v

  abbrev pub cleaned : Json → String
  cleaned v = clean (value_text v)

  -- `fields.get("ts", "")`
  abbrev pub stamp : Option Json → Json
  stamp none = str ""
  stamp (some v) = v

  unfoldable pub pairs : Dict String Json → List String
  pairs [] = []
  pairs ((k, v) ∷ d) = if k == "ts" then pairs d else (k ++ ("=" ++ cleaned v)) ∷ pairs d

  unfoldable pub format_text : String → Dict String Json → String
  format_text event fields = strip_right (
      cleaned (stamp (Dict.get "ts" fields))
      ++ (" audit " ++ (event ++ (" " ++ join (pairs fields)))))

  -- The line of `emit` in the text format, at a time.
  unfoldable pub audit_line : String → AuditEntry → String
  audit_line now e =
      format_text (event_of e) (("ts", str now) ∷ ("event", str (event_of e)) ∷ fields_of_entry e)
