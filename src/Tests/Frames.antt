-- ===== src/Tests/Frames.antt =====
-- Frames, mappings, headers and origins.
use pyconduit.Base.{◌≢◌, ◌↔◌, true, string_eq, ◌≡◌, refl, some, [], ◌∷◌, inr}
use pyconduit.Base.Dict
use pyconduit.Json.{Json, str, object}
use pyconduit.Errors.{ok}
use pyconduit.Protocol.{ClientMessage, parse_client_message, parse_type, without_type}
use pyconduit.Protocol.Parsing.{parse_client_message-object, parse_client_message_iff, IsFrame}
use pyconduit.Auth.{AuthMapper, Identity}
use pyconduit.Security.{origin_allowed}
use pyconduit.Security.Laws.{origin_allowed_iff}
use mathlib.Core.List.{mem-cons_self}
use pyconduit.Auth.Laws.{resolve_iff, extract_username-proxy_iff}
use pyconduit.Auth.{resolve, extract_username}
use pyconduit.Headers.{last_header}
use pyconduit.Tests.Fixtures.{python}

abbrev pub joining : ClientMessage
joining = record { type = "join_room"; payload = ("room", str "r@muc.example") ∷ [] }

abbrev pub joining_raw : Json
joining_raw = object (("type", str "join_room") ∷ joining.payload)

parse_client_message-object_example : parse_client_message python joining_raw ≡ ok joining
unfolding Dict.get string_eq
parse_client_message-object_example =
    parse_client_message-object python "join_room" (("room", str "r@muc.example") ∷ []) refl refl

pub joining_parsed : parse_client_message python joining_raw ≡ ok joining
unfolding parse_client_message parse_type without_type Dict.get string_eq
joining_parsed = refl

parse_client_message_iff_example : IsFrame joining_raw joining
parse_client_message_iff_example =
    (parse_client_message_iff python joining_raw joining).0 joining_parsed

abbrev pub mapper : AuthMapper
mapper = record {
  users = ("alice", "alice@example") ∷ [];
  credentials = ("alice@example", "secret") ∷ [];
}

abbrev pub alice_id : Identity
alice_id = record { username = "alice"; jid = "alice@example"; password = "secret" }

origin_allowed_iff_example :
    origin_allowed (some "https://chat.example") ("https://chat.example" ∷ []) ≡ true
origin_allowed_iff_example =
    (origin_allowed_iff (some "https://chat.example") ("https://chat.example" ∷ [])).1
      (inr ("https://chat.example", refl, (λ e. cc e), mem-cons_self))

resolve_iff_example : resolve python mapper "alice" ≡ ok alice_id
unfolding Dict.get string_eq
resolve_iff_example = (resolve_iff python mapper "alice" alice_id).1 ((λ e. cc e), refl, refl, refl)

extract_username-proxy_iff_example :
    (extract_username python "proxy" "x-user" (("x-user", "alice") ∷ []) (some "bob") "dev"
      ≡ ok "alice")
    ↔ ((last_header python "x-user" (("x-user", "alice") ∷ []) ≡ some "alice")
        × (alice_id.username ≢ ""))
extract_username-proxy_iff_example =
    extract_username-proxy_iff python "proxy" "x-user" (("x-user", "alice") ∷ []) (some "bob") "dev"
      "alice" (λ e. cc e)
