-- ===== src/Security.antt =====
-- src/pyconduit/web/security.py
pub mod Laws
use pyconduit.Base.{
  String, Bool, true, false, ◌==◌, string_eq, if◌then◌else◌, contains, Option, none, some, List, [],
  ◌∷◌,
}
use pyconduit.Base.Dict
use pyconduit.Base.Dict.{Dict}
use pyconduit.Base.Text.{before, strip}
use pyconduit.Errors.{Python}
use pyconduit.Headers.{lowered}

-- `peer or "unknown"`
abbrev pub peer_or_unknown : Option String → String
peer_or_unknown none = "unknown"
peer_or_unknown (some p) = if p == "" then "unknown" else p

-- The header's value, if it is set.
abbrev pub forwarded : Option String → Option String → String
forwarded none peer = peer_or_unknown peer
forwarded (some value) peer =
    if value == "" then peer_or_unknown peer else strip (before b',' value)

unfoldable pub client_ip : Python → Dict String String → Option String → Option String → String
client_ip py headers peer none = peer_or_unknown peer
client_ip py headers peer (some ip_header) =
    if ip_header == ""
    then peer_or_unknown peer
    else forwarded (Dict.get (py.lower ip_header) (lowered py headers)) peer

unfoldable pub origin_allowed : Option String → List String → Bool
origin_allowed origin [] = true
origin_allowed none (a ∷ allowed) = false
origin_allowed (some origin) (a ∷ allowed) =
    if origin == "" then false else contains (a ∷ allowed) origin
