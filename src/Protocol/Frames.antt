-- ===== src/Protocol/Frames.antt =====
-- src/pyconduit/protocol.py: the frames for the tabs, built as the source's dicts.
use pyconduit.Base.{ℕ, String, Bool, Option, List, [], ◌∷◌}
use pyconduit.Json.{Json, bool, int, str, array, object, optional}

unfoldable pub server_ready : String → String → String → Bool → List Json → ℕ → Json
server_ready jid username brand_title sound_default muc_servers max_message_chars = object (
    ("type", str "ready")
    ∷ ("jid", str jid)
    ∷ ("username", str username)
    ∷ ("brand_title", str brand_title)
    ∷ ("sound_enabled_default", bool sound_default)
    ∷ ("muc_servers", array muc_servers)
    ∷ ("max_message_chars", int max_message_chars)
    ∷ [])

-- Addresses and the body are what the tab sent, so any JSON value.
unfoldable pub server_message : Json → String → Json → Json → String → String → String → Json
server_message conversation from_jid to_jid body msg_id timestamp direction = object (
    ("type", str "message")
    ∷ ("conversation", conversation)
    ∷ ("from", str from_jid)
    ∷ ("to", to_jid)
    ∷ ("body", body)
    ∷ ("id", str msg_id)
    ∷ ("timestamp", str timestamp)
    ∷ ("direction", str direction)
    ∷ [])

unfoldable pub server_history : Json → List Json → Bool → Json
server_history conversation messages complete = object (
    ("type", str "history")
    ∷ ("conversation", conversation)
    ∷ ("messages", array messages)
    ∷ ("complete", bool complete)
    ∷ [])

unfoldable pub server_presence : String → String → Option String → Json
server_presence jid show status = object (
    ("type", str "presence")
    ∷ ("jid", str jid)
    ∷ ("show", str show)
    ∷ ("status", optional status)
    ∷ [])

unfoldable pub server_roster : List Json → Json
server_roster contacts = object (("type", str "roster") ∷ ("contacts", array contacts) ∷ [])

unfoldable pub server_subscription_request : String → Json
server_subscription_request jid =
    object (("type", str "subscription_request") ∷ ("jid", str jid) ∷ [])

unfoldable pub server_muc_joined : Json → Json → Option String → Json
server_muc_joined room nick subject = object (
    ("type", str "muc_joined")
    ∷ ("room", room)
    ∷ ("nick", nick)
    ∷ ("subject", optional subject)
    ∷ [])

unfoldable pub server_muc_left : Json → Json
server_muc_left room = object (("type", str "muc_left") ∷ ("room", room) ∷ [])

unfoldable pub server_muc_message : String → String → String → String → String → Bool → Bool → Json
server_muc_message room nick body msg_id timestamp is_self mentions_me = object (
    ("type", str "muc_message")
    ∷ ("room", str room)
    ∷ ("nick", str nick)
    ∷ ("body", str body)
    ∷ ("id", str msg_id)
    ∷ ("timestamp", str timestamp)
    ∷ ("is_self", bool is_self)
    ∷ ("mentions_me", bool mentions_me)
    ∷ [])

unfoldable pub server_muc_occupants : Json → List Json → Json
server_muc_occupants room occupants =
    object (("type", str "muc_occupants") ∷ ("room", room) ∷ ("occupants", array occupants) ∷ [])

unfoldable pub server_muc_presence : String → String → Bool → Json
server_muc_presence room nick joined = object (
    ("type", str "muc_presence")
    ∷ ("room", str room)
    ∷ ("nick", str nick)
    ∷ ("joined", bool joined)
    ∷ [])

unfoldable pub server_disco_servers : List Json → Json
server_disco_servers servers =
    object (("type", str "disco_servers") ∷ ("servers", array servers) ∷ [])

unfoldable pub server_error : String → String → Json → Json
server_error context message conversation = object (
    ("type", str "error")
    ∷ ("context", str context)
    ∷ ("message", str message)
    ∷ ("conversation", conversation)
    ∷ [])
