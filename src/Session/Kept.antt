-- ===== src/Session/Kept.antt =====
-- What the coroutines of src/pyconduit/session/account.py keep, whatever it is: a property that
-- survives their statements survives them. Commands, events and connecting are in the children.
pub mod Frames
pub mod Rooms
pub mod Calls
pub mod Commands
use pyconduit.Base.{◌≤◌, ◌⊎◌, some, ℕ, String, Bool, true, ◌≡◌, refl}
use pyconduit.Json.{Json, len}
use pyconduit.Errors.{Result, ok, raise}
use pyconduit.Interface.{Notice}
use pyconduit.Session.World.{
  Env, W, Subscriber, AuditEntry, Action, resume, ◌>>=◌, ◌>>◌, lift, gets, pure, run, attempt, send,
  broadcast, log, schedule_reconnect,
}
use pyconduit.Session.Events.{on_notice}
use pyconduit.Session.Commands.{room_domain_allowed, remember_room, forget_room, forget_occupants}
use pyconduit.Session.Kept.Frames.{is_other}

-- A property of the state that a coroutine keeps, whether it returns or raises.
pub record Keeps {S A : Type 0} (P : S → Type 0) (m : Action S A) : Type 0 where
  pub at : (w : S) → P w → P (m w).1

module _ {S : Type 0} {P : S → Type 0} where
  pub Keeps-bind :
      {A B : Type 0} {m : Action S A} {f : A → Action S B}
      → Keeps P m
      → ((a : A) → Keeps P (f a))
      → Keeps P (m >>= f)
  Keeps-bind {A} {B} {m} {f} k j = record { at = λ w h. go (m w) (k.at w h) }
    where
      go : (r : Result A × S) → P r.1 → P (resume r f).1
      go (ok a, w') q = (j a).at w' q
      go (raise e, w') q = q

  -- What follows may use that the result was no exception.
  pub Keeps-bind-lift :
      {A B : Type 0} (a : Result A) (f : A → Action S B)
      → ((v : A) → a ≡ ok v → Keeps P (f v))
      → Keeps P (lift a >>= f)
  Keeps-bind-lift (ok v) f k = record { at = (k v refl).at }
  Keeps-bind-lift (raise e) f k = record { at = λ w h. h }

  pub Keeps-then :
      {B : Type 0} {m : Action S (Unit {0})} {n : Action S B}
      → Keeps P m
      → Keeps P n
      → Keeps P (m >> n)
  Keeps-then k j = Keeps-bind k (λ _. j)

  pub Keeps-lift : {A : Type 0} (r : Result A) → Keeps P (lift r)
  Keeps-lift r = record { at = λ w h. h }

  pub Keeps-gets : {A : Type 0} (f : S → A) → Keeps P (gets f)
  Keeps-gets f = record { at = λ w h. h }

  pub Keeps-pure : {A : Type 0} (a : A) → Keeps P (pure a)
  Keeps-pure a = record { at = λ w h. h }

  pub Keeps-run : (f : S → S) → ((w : S) → P w → P (f w)) → Keeps P (run f)
  Keeps-run f k = record { at = k }

  pub Keeps-attempt : {A : Type 0} {m : Action S A} → Keeps P m → Keeps P (attempt m)
  Keeps-attempt k = record { at = k.at }

abbrev pub IsAllowed : Env → Json → Type 0
IsAllowed E room = room_domain_allowed E room ≡ ok true

-- A body that the limit on messages lets through: it has a length, and one within the limit, unless
-- the settings set none.
abbrev pub IsSendable : Env → Json → Type 0
IsSendable E body =
    (E.config.server.max_message_chars ≡ 0)
    ⊎ ((n : ℕ) × (len body ≡ some n) × (n ≤ E.config.server.max_message_chars))

-- A request to the client from which it comes back as connected as it was: each but `connect` and
-- `disconnect`, with a body that is let through. What it does to the client's state.
pub data IsRequest (E : Env) : (E.xmpp.State → E.xmpp.State) → Type 0 where
  asks_message :
      (to body : Json)
      → IsSendable E body
      → IsRequest E (λ c. (E.xmpp.send_message to body c).state)
  asks_presence :
      (show status : Json) → IsRequest E (λ c. (E.xmpp.set_presence show status c).state)
  asks_history :
      (jid before : Json) (size : ℕ)
      → IsRequest E (λ c. (E.xmpp.fetch_history jid before size c).state)
  asks_contact : (jid name : Json) → IsRequest E (λ c. (E.xmpp.add_contact jid name c).state)
  asks_removal : (jid : Json) → IsRequest E (λ c. (E.xmpp.remove_contact jid c).state)
  asks_subscription :
      (jid : Json) (accept : Bool)
      → IsRequest E (λ c. (E.xmpp.respond_subscription jid accept c).state)
  asks_room : (room nick : Json) → IsRequest E (λ c. (E.xmpp.join_room room nick c).state)
  asks_leave : (room : Json) → IsRequest E (λ c. (E.xmpp.leave_room room c).state)
  asks_muc :
      (room body : Json)
      → IsSendable E body
      → IsRequest E (λ c. (E.xmpp.send_muc room body c).state)
  asks_rooms : (server : String) → IsRequest E (λ c. (E.xmpp.disco_rooms server c).state)

-- The statements: broadcasts of frames that are no roster and no presence, the events of the client
-- but `Connected`, and the writes of the fields. What is sent to one tab is `Answers`.
pub record Rules (E : Env) (P : W E → Type 0) : Type 0 where
  pub spreads : (frame : Json) → is_other frame ≡ true → (w : W E) → P w → P (broadcast E frame w)
  pub notices : (n : Notice) (w : W E) → P w → P (on_notice E n w)
  pub requests :
      {f : E.xmpp.State → E.xmpp.State}
      → IsRequest E f
      → (w : W E) → P w
      → P (record w { client = f w.client })
  pub logs : (entry : AuditEntry) (w : W E) → P w → P (log E entry w)
  pub schedules : (w : W E) → P w → P (schedule_reconnect E w)
  pub joins : (room nick : Json) → IsAllowed E room → Keeps P (remember_room E room nick)
  pub leaves : (room : Json) → Keeps P (forget_room E room)
  pub empties : (room : Json) → Keeps P (forget_occupants E room)

-- And anything else that the client does.
abbrev pub Moves : (E : Env) → (W E → Type 0) → Type 0
Moves E P = (c : E.xmpp.State) (w : W E) → P w → P (record w { client = c })

-- Such frames to one tab.
abbrev pub Answers : (E : Env) → (W E → Type 0) → Subscriber → Type 0
Answers E P s = (frame : Json) → is_other frame ≡ true → Keeps P (send E s frame)
