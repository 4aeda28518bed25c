-- ===== src/Session/Served/Steps.antt =====
-- The same through each step of an account of src/pyconduit/session/account.py.
use pyconduit.Base.{
  Bool, true, ◌||◌, ◌&&◌, is_empty, List, [], ◌∷◌, ◌≡◌, refl, ◌∙◌, arith, Bool-cases, inl, inr,
}
use pyconduit.Json.{Json}
use pyconduit.Interface.{Answer, done, failed, Event}
use pyconduit.Session.World.{
  Env, W, Subscriber, subscriber_eq, answer_of, cancel_idle, start_idle_timer, ReconnectTask,
  absent, finished, looping, sleeping,
}
use pyconduit.Session.Events.{on_events, connect, call}
use pyconduit.Session.Account.{
  attach, detach, start_if_empty, send_all, ensure_connected, after_connect,
}
use pyconduit.Session.Lifecycle.{
  reconnect_step, reconnect_from, reconnect_test, reconnect_wake, retried, begin_close, close,
  idle_expire, expire_empty,
}
use pyconduit.Session.Kept.{Keeps, Keeps-then, Keeps-run}
use pyconduit.Session.Kept.Calls.{on_notices-Keeps, on_events-Keeps}
use pyconduit.Session.Client.{client-rules}
use pyconduit.Socket.Pump.{on_frame}
use pyconduit.Socket.Reading.{on_frame-Keeps}
use pyconduit.Session.Served.{
  IsServed, IsSteady, IsServed-rules, same-IsServed, dropped-IsServed, send-IsServed, log-IsServed,
  schedule-serves,
}

module _ (E : Env) (steady : IsSteady E) where
  connect-up :
      (w : W E)
      → (E.xmpp.connect w.client).outcome ≡ done tt
      → E.xmpp.is_connected (connect E w).1.client ≡ true
  unfolding connect
  connect-up w e =
      let r = E.xmpp.connect w.client in
      on_events-Keeps
        (client-rules E (λ c. E.xmpp.is_connected c ≡ true)
          (λ f asked c up. steady.requests asked c ∙ up))
        r.events (record w { client = r.state }) (steady.connects w.client e)

  up-IsServed : (w : W E) → E.xmpp.is_connected w.client ≡ true → IsServed E w
  up-IsServed w up = record { at = ground arith }

  -- Whatever it was before.
  ensure_connected-serves : (w : W E) → IsServed E (ensure_connected E w)
  unfolding ensure_connected connect
  ensure_connected-serves w = elim (Bool-cases (E.xmpp.is_connected w.client)) [
    | inl up ↦ rw up (up-IsServed w up)
    | inr down ↦ rw down (go (E.xmpp.connect w.client).outcome refl)
  ]
    where
      go :
          (o : Answer (Unit {0}))
          → (E.xmpp.connect w.client).outcome ≡ o
          → IsServed E (after_connect E (answer_of o, (connect E w).1))
      go (done _) e = up-IsServed _ (connect-up w e)
      go (failed text) e = schedule-serves E _

  send_all-IsServed :
      (s : Subscriber) (frames : List Json) → Keeps (IsServed E) (send_all E s frames)
  unfolding send_all
  send_all-IsServed s [] = record { at = λ w h. h }
  send_all-IsServed s (frame ∷ frames) =
      let rest = send_all-IsServed s frames in
      record { at = λ w h. (Keeps-then (send-IsServed E s frame) rest).at w h }

  -- A tab that comes makes the account connect, or try again later.
  pub attach-IsServed : (s : Subscriber) (w : W E) → IsServed E (attach E s w).1
  unfolding attach
  attach-IsServed s w =
      (Keeps-then (send_all-IsServed s _) (Keeps-run _ (λ v h. log-IsServed E _ v h))).at _
        (ensure_connected-serves _)

  started-IsServed : (w : W E) → IsServed E w → IsServed E (start_if_empty E w)
  unfolding start_idle_timer
  started-IsServed w h = elim (Bool-cases (is_empty w.subscribers)) [
    | inl none_left ↦ rw none_left (same-IsServed E w _ refl refl refl refl h)
    | inr some_left ↦ rw some_left h
  ]

  pub detach-IsServed : (s : Subscriber) (w : W E) → IsServed E w → IsServed E (detach E s w)
  unfolding detach
  detach-IsServed s w h = started-IsServed _ (log-IsServed E _ _ (dropped-IsServed E s w h))

  pub on_frame-IsServed : (s : Subscriber) (raw : Json) → Keeps (IsServed E) (on_frame E s raw)
  on_frame-IsServed s raw =
      on_frame-Keeps E s (IsServed-rules E steady) (λ frame _. send-IsServed E s frame) raw

  reconnect_test-IsServed :
      (delay : E.float.Number) (w : W E) → IsServed E (reconnect_test E delay w)
  unfolding reconnect_test
  reconnect_test-IsServed delay w = record { at = ground arith }

  reconnect_wake-IsServed :
      (delay : E.float.Number) (w : W E) → IsServed E (reconnect_wake E delay w)
  unfolding reconnect_wake connect
  reconnect_wake-IsServed delay w = elim (Bool-cases (w.closing || is_empty w.subscribers)) [
    | inl over ↦ rw over (record { at = ground arith })
    | inr on ↦ rw on (go (E.xmpp.connect w.client).outcome refl)
  ]
    where
      go :
          (o : Answer (Unit {0}))
          → (E.xmpp.connect w.client).outcome ≡ o
          → IsServed E (retried E delay (answer_of o, (connect E w).1))
      go (done _) e = up-IsServed _ (connect-up w e)
      go (failed text) e = record { at = ground arith }

  reconnect_from-IsServed :
      (task : ReconnectTask E.float.Number) (w : W E)
      → IsServed E w
      → IsServed E (reconnect_from E task w)
  reconnect_from-IsServed (looping delay) w h = reconnect_test-IsServed delay w
  reconnect_from-IsServed (sleeping delay) w h = reconnect_wake-IsServed delay w
  reconnect_from-IsServed absent w h = h
  reconnect_from-IsServed finished w h = h

  pub reconnect_step-IsServed : (w : W E) → IsServed E w → IsServed E (reconnect_step E w)
  unfolding reconnect_step
  reconnect_step-IsServed w h = reconnect_from-IsServed w.reconnect_task w h

  shut-IsServed :
      (c : E.xmpp.State) (w : W E) → w.closing ≡ true → IsServed E (record w { client = c })
  shut-IsServed c w shut = record { at = ground arith }

  begin_close-shuts : (w : W E) → (begin_close E w).closing ≡ true
  unfolding begin_close cancel_idle
  begin_close-shuts w = ground arith

  disconnect-IsServed : (w : W E) → w.closing ≡ true → IsServed E (call E E.xmpp.disconnect w).1
  unfolding call
  disconnect-IsServed w shut =
      on_notices-Keeps (IsServed-rules E steady) _ _ (shut-IsServed _ w shut)

  pub close-IsServed : (w : W E) → IsServed E (close E w)
  unfolding close
  close-IsServed w = disconnect-IsServed (begin_close E w) (begin_close-shuts w)

  expire_empty-IsServed :
      (cancelled : Bool) (w : W E) → w.closing ≡ true → IsServed E (expire_empty E cancelled w).0
  expire_empty-IsServed cancelled w shut =
      elim (Bool-cases (cancelled && E.xmpp.disconnect_waits w.client)) [
        | inl waits ↦ rw waits (shut-IsServed _ w shut)
        | inr at_once ↦ rw at_once (disconnect-IsServed w shut)
      ]

  pub idle_expire-IsServed : (w : W E) → IsServed E w → IsServed E (idle_expire E w).0
  unfolding idle_expire
  idle_expire-IsServed w h = elim (Bool-cases (is_empty w.subscribers)) [
    | inl none_left ↦ rw none_left (expire_empty-IsServed _ _ (begin_close-shuts w))
    | inr some_left ↦ rw some_left (same-IsServed E w _ refl refl refl refl h)
  ]

  pub on_events-IsServed :
      (es : List Event) (w : W E) → IsServed E w → IsServed E (on_events E es w)
  on_events-IsServed es w h = on_events-Keeps (IsServed-rules E steady) es w h
