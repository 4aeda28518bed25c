-- ===== src/Session/World.antt =====
-- src/pyconduit/session/hub.py, and the state of src/pyconduit/session/account.py: an account, what
-- its tabs have been sent and what it has written to the audit log.
use pyconduit.Base.{
  ℕ, String, Bool, true, false, Eq, ◌==◌, string_eq, String-discrete, contains, if◌then◌else◌, List,
  [], ◌∷◌, ◌++◌, is_empty, ◌||◌,
}
use native.Mathlib.Decide.{ℕ_discrete}
use pyconduit.Base.Dict.{Dict}
use pyconduit.Json.{Json}
use pyconduit.Errors.{Error, Result, ok, raise, send_error, client_error, Python}
use pyconduit.Config.{Config}
use pyconduit.Interface.{XmppClient, Answer, done, failed}

-- `send` is the environment's `accepts`; ids are distinct.
pub record Subscriber : Type 0 where
  pub username : String
  pub ip : String
  pub id : ℕ

pub Subscriber-discrete : Discrete Subscriber
Subscriber-discrete = hlevel (ℕ_discrete, String-discrete)

instance unfoldable pub subscriber_eq : Eq Subscriber
unfolding Subscriber-discrete String-discrete
subscriber_eq = record { dec = Subscriber-discrete }

-- The calls of audit.AuditLog, with their arguments.
pub data AuditEntry : Type 0 where
  auth_ok : String → String → String → AuditEntry
  auth_denied : Json → String → String → AuditEntry
  session_open session_close : String → String → String → ℕ → AuditEntry
  xmpp_connect : String → AuditEntry
  xmpp_disconnect : String → String → AuditEntry

-- `_idle_task`: None, the countdown, or a countdown that has returned.
pub data IdleTask : Type 0 where
  no_timer counting expired : IdleTask

-- `_reconnect_task`: None, about to test its loop's condition, asleep, or returned. The first two
-- hold the delay.
pub data ReconnectTask (F : Type 0) : Type 0 where
  absent finished : ReconnectTask F
  looping sleeping : F → ReconnectTask F

pub record World (S F : Type 0) : Type 0 where
  pub jid : String
  pub password : String
  pub client : S
  pub subscribers : List Subscriber
  pub roster : List Json
  pub presence : Dict String Json
  pub joined_rooms : Dict Json Json
  pub muc_rosters : Dict Json (List Json)
  pub idle_task : IdleTask
  pub reconnect_task : ReconnectTask F
  pub closing : Bool
  pub sent : List (Subscriber × Json)
  pub audit : List AuditEntry

-- Floats: only a product and a comparison are used of them.
pub record Float : Type 1 where
  pub Number : Type 0
  pub times : Number → Number → Number
  pub less : Number → Number → Bool

-- What surrounds an account. `accepts` says whether a tab's `send` returns, given all that was sent
-- before; `clock` is `_now_iso`.
pub record Env : Type 1 where
  pub xmpp : XmppClient
  pub float : Float
  pub config : Config float.Number
  pub python : Python
  pub accepts : List (Subscriber × Json) → Subscriber → Json → Bool
  pub clock : List (Subscriber × Json) → String

abbrev pub W : Env → Type 0
W E = World E.xmpp.State E.float.Number

-- A coroutine run to its end: the state comes back after a raise too.
abbrev pub Action : Type 0 → Type 0 → Type 0
Action S A = S → Result A × S

abbrev pub resume : {S A B : Type 0} → Result A × S → (A → Action S B) → Result B × S
resume (ok a, w) f = f a w
resume (raise e, w) f = (raise e, w)

infixl 5 ◌>>=◌ ◌>>◌
abbrev pub ◌>>=◌ : {S A B : Type 0} → Action S A → (A → Action S B) → Action S B
◌>>=◌ m f w = resume (m w) f

abbrev pub ◌>>◌ : {S A B : Type 0} → Action S A → Action S B → Action S B
m >> k = m >>= λ _. k

module _ {S : Type 0} where
  abbrev pub pure : {A : Type 0} → A → Action S A
  pure a w = (ok a, w)

  abbrev pub throw : {A : Type 0} → Error → Action S A
  throw e w = (raise e, w)

  abbrev pub lift : {A : Type 0} → Result A → Action S A
  lift r w = (r, w)

  -- A statement that cannot raise.
  abbrev pub run : (S → S) → Action S (Unit {0})
  run f w = (ok tt, f w)

  abbrev pub gets : {A : Type 0} → (S → A) → Action S A
  gets f w = (ok (f w), w)

  -- `try: … except Exception as exc: …`
  abbrev pub attempt : {A : Type 0} → Action S A → Action S (Result A)
  attempt m w = let (r, w') = m w in (ok r, w')

abbrev pub answer_of : {A : Type 0} → Answer A → Result A
answer_of (done a) = ok a
answer_of (failed text) = raise (client_error text)

-- `set.discard` and `set.add`; the set is kept in the order of its additions.
unfoldable pub discard : Subscriber → List Subscriber → List Subscriber
discard s [] = []
discard s (t ∷ ts) = if s == t then ts else t ∷ discard s ts

unfoldable pub add : Subscriber → List Subscriber → List Subscriber
add s ts = if contains ts s then ts else ts ++ s ∷ []

module _ (E : Env) where
  -- `await sub.send(frame)`
  unfoldable pub send : Subscriber → Json → Action (W E) (Unit {0})
  send s frame w =
      if E.accepts w.sent s frame
      then (ok tt, record w { sent = w.sent ++ (s, frame) ∷ [] })
      else (raise send_error, w)

  -- One round of `_broadcast`: a tab whose `send` raises is dropped.
  unfoldable pub send_or_drop : Subscriber → Json → W E → W E
  send_or_drop s frame w =
      if E.accepts w.sent s frame
      then record w { sent = w.sent ++ (s, frame) ∷ [] }
      else record w { subscribers = discard s w.subscribers }

  unfoldable pub send_to : List Subscriber → Json → W E → W E
  send_to [] frame w = w
  send_to (s ∷ ss) frame w = send_to ss frame (send_or_drop s frame w)

  -- `_broadcast`
  unfoldable pub broadcast : Json → W E → W E
  broadcast frame w = send_to w.subscribers frame w

  unfoldable pub log : AuditEntry → W E → W E
  log entry w = record w { audit = w.audit ++ entry ∷ [] }

  -- `task and not task.done()`
  abbrev pub is_pending : ReconnectTask E.float.Number → Bool
  is_pending absent = false
  is_pending finished = false
  is_pending _ = true

  -- `_schedule_reconnect`
  unfoldable pub schedule_reconnect : W E → W E
  schedule_reconnect w =
      if is_pending w.reconnect_task
      then w
      else if w.closing || is_empty w.subscribers
      then w
      else record w { reconnect_task = looping E.config.xmpp.reconnect.initial_seconds }

  -- `_cancel_idle` and `_start_idle_timer`
  unfoldable pub cancel_idle : W E → W E
  cancel_idle w = record w { idle_task = no_timer }

  unfoldable pub start_idle_timer : W E → W E
  start_idle_timer w = record w { idle_task = counting }
