-- ===== src/Protocol.antt =====
-- src/pyconduit/protocol.py: reading a tab's frame. The frames for the tabs are in `Frames`.
pub mod Frames
pub mod Parsing
use pyconduit.Base.{
  String, Bool, true, false, ◌||◌, ◌==◌, string_eq, contains, not, Option, none, some, List, [],
  ◌∷◌, if◌then◌else◌,
}
use Prim.Native.String.{◌++◌}
use pyconduit.Base.Dict
use pyconduit.Base.Dict.{Dict}
use pyconduit.Json.{Json, null, str, obj, entries}
use pyconduit.Errors.{Result, ok, raise, protocol_error, ◌>>=◌, ◌>>◌, Python}

-- `CLIENT_TYPES`
abbrev pub client_types : List String
client_types =
    "send_message" ∷ "load_history" ∷ "set_presence" ∷ "join_room" ∷ "leave_room" ∷ "send_muc"
    ∷ "add_contact" ∷ "remove_contact" ∷ "subscription" ∷ "disco_servers" ∷ []

pub record ClientMessage : Type 0 where
  pub type : String
  pub payload : Dict String Json

-- `v is None or (isinstance(v, str) and v == "")`, of `self.data.get(f)`
abbrev pub is_missing : Option Json → Bool
is_missing none = true
is_missing (some null) = true
is_missing (some (str s)) = s == ""
is_missing (some _) = false

unfoldable pub require : ClientMessage → List String → Result (Unit {0})
require m [] = ok tt
require m (f ∷ fs) =
    if is_missing (Dict.get f m.payload)
    then raise (protocol_error (m.type ++ (": missing field '" ++ (f ++ "'"))))
    else require m fs

-- `{k: v for k, v in raw.items() if k != "type"}`
unfoldable pub without_type : Dict String Json → Dict String Json
without_type [] = []
without_type ((k, v) ∷ d) = if k == "type" then without_type d else (k, v) ∷ without_type d

module _ (py : Python) where
  unfoldable pub parse_type : Dict String Json → Option Json → Result ClientMessage
  parse_type raw (some (str mtype)) =
      if mtype == ""
      then raise (protocol_error "frame missing string 'type'")
      else if contains client_types mtype
      then ok (record { type = mtype; payload = without_type raw })
      else raise (protocol_error ("unknown client message type: " ++ py.repr mtype))
  parse_type raw _ = raise (protocol_error "frame missing string 'type'")

  unfoldable pub parse_client_message : Json → Result ClientMessage
  unfolding parse_type
  parse_client_message (obj raw) = parse_type (entries raw) (Dict.get "type" (entries raw))
  parse_client_message _ = raise (protocol_error "frame must be a JSON object")
