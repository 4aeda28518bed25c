-- ===== src/Session/Kept/Frames.antt =====
-- Frames that a tab does not keep as the state of its contacts.
use pyconduit.Base.{ℕ, String, string_eq, ◌==◌, Bool, true, not, ◌&&◌, List, Option, ◌≡◌, refl}
use pyconduit.Base.Dict
use pyconduit.Json.{Json, null, str, obj, entries, value_at}
use pyconduit.Protocol.Frames.{
  server_message, server_history, server_subscription_request, server_muc_joined, server_muc_left,
  server_muc_message, server_muc_occupants, server_muc_presence, server_disco_servers, server_error,
  server_ready,
}

abbrev pub text_of_value : Json → String
text_of_value (str s) = s
text_of_value _ = ""

-- A field of a frame, and a field as text.
abbrev pub field_of : String → Json → Json
field_of k (obj fs) = value_at k (entries fs)
field_of k _ = null

abbrev pub text_at : String → Json → String
text_at k frame = text_of_value (field_of k frame)

unfoldable pub is_other : Json → Bool
is_other frame = not (text_at "type" frame == "roster") && not (text_at "type" frame == "presence")

pub server_error-other :
    (context message : String) (conversation : Json)
    → is_other (server_error context message conversation) ≡ true
unfolding is_other server_error Dict.get string_eq
server_error-other context message conversation = refl

pub server_message-other :
    (conversation : Json) (from : String) (to body : Json) (id timestamp direction : String)
    → is_other (server_message conversation from to body id timestamp direction) ≡ true
unfolding is_other server_message Dict.get string_eq
server_message-other conversation from to body id timestamp direction = refl

pub server_history-other :
    (conversation : Json) (messages : List Json) (complete : Bool)
    → is_other (server_history conversation messages complete) ≡ true
unfolding is_other server_history Dict.get string_eq
server_history-other conversation messages complete = refl

pub server_muc_left-other : (room : Json) → is_other (server_muc_left room) ≡ true
unfolding is_other server_muc_left Dict.get string_eq
server_muc_left-other room = refl

pub server_disco_servers-other :
    (servers : List Json) → is_other (server_disco_servers servers) ≡ true
unfolding is_other server_disco_servers Dict.get string_eq
server_disco_servers-other servers = refl

pub server_subscription_request-other :
    (jid : String) → is_other (server_subscription_request jid) ≡ true
unfolding is_other server_subscription_request Dict.get string_eq
server_subscription_request-other jid = refl

pub server_muc_joined-other :
    (room nick : Json) (subject : Option String)
    → is_other (server_muc_joined room nick subject) ≡ true
unfolding is_other server_muc_joined Dict.get string_eq
server_muc_joined-other room nick subject = refl

pub server_muc_message-other :
    (room nick body id timestamp : String) (is_self mentions_me : Bool)
    → is_other (server_muc_message room nick body id timestamp is_self mentions_me) ≡ true
unfolding is_other server_muc_message Dict.get string_eq
server_muc_message-other room nick body id timestamp is_self mentions_me = refl

pub server_muc_occupants-other :
    (room : Json) (occupants : List Json) → is_other (server_muc_occupants room occupants) ≡ true
unfolding is_other server_muc_occupants Dict.get string_eq
server_muc_occupants-other room occupants = refl

pub server_muc_presence-other :
    (room nick : String) (joined : Bool) → is_other (server_muc_presence room nick joined) ≡ true
unfolding is_other server_muc_presence Dict.get string_eq
server_muc_presence-other room nick joined = refl

pub server_ready-other :
    (jid username brand : String) (sound : Bool) (servers : List Json) (limit : ℕ)
    → is_other (server_ready jid username brand sound servers limit) ≡ true
unfolding is_other server_ready Dict.get string_eq
server_ready-other jid username brand sound servers limit = refl
