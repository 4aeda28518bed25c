-- ===== src/Tests/Retries.antt =====
-- A reconnect loop over a client whose first connect fails.
use pyconduit.Base.{ℕ, ◌<◌, Bool, true, false, [], ◌∷◌, ◌≡◌, arith}
use pyconduit.Errors.{Error, raise}
use pyconduit.Interface.{Answer, done, failed, XmppClient}
use pyconduit.Session.World.{Env, W, looping, is_pending, answer_of}
use pyconduit.Session.Events.{connect, on_events}
use pyconduit.Session.History.{init}
use pyconduit.Session.Lifecycle.Ends.{reconnect_steps, reconnect_steps-IsOver}
use pyconduit.Tests.Fixtures.{fake_client, env, start, alice}

-- The client's state is whether it has been asked before.
abbrev outcome_of_ask : Bool → Answer (Unit {0})
outcome_of_ask true = done tt
outcome_of_ask false = failed "no route to host"

abbrev second_try : XmppClient
second_try = record (fake_client true false) {
  is_connected = λ c. false;
  connect = λ c. record { outcome = outcome_of_ask c; state = true; events = [] };
}

abbrev trying : Env
trying = record env { xmpp = second_try }

abbrev asks_left : Bool → ℕ
asks_left true = 0
asks_left false = 1

connect-tires :
    (w : W trying) (exc : Error)
    → (connect trying w).0 ≡ raise exc
    → asks_left (connect trying w).1.client < asks_left w.client
unfolding connect on_events
connect-tires w exc broken = go w.client broken
  where
    go : (c : Bool) → (answer_of (outcome_of_ask c) ≡ raise exc) → 0 < asks_left c
    go true e = absurd (cc)
    go false e = omega arith

abbrev retrying : W trying
retrying = record (start trying false) { subscribers = alice ∷ []; reconnect_task = looping 1 }

reconnect_steps-IsOver_example :
    is_pending trying (reconnect_steps trying 4 retrying).reconnect_task ≡ false
unfolding init
reconnect_steps-IsOver_example =
    reconnect_steps-IsOver trying asks_left connect-tires 4 retrying (omega arith)
