-- ===== src/Session/Lifecycle/Empty.antt =====
-- An account with no tab sends nothing, and a call of its client brings none.
use pyconduit.Base.{List, [], ◌∷◌, ◌≡◌, refl, ap, ◌∙◌, arith, true, is_empty, false, ◌&&◌}
use pyconduit.Json.{Json, json_eq}
use pyconduit.Interface.{
  Notice, disconnected, presence_update, roster_snapshot, muc_occupants, Reply,
}
use pyconduit.Session.World.{
  Env, W, Subscriber, send_to, broadcast, log, schedule_reconnect, cancel_idle,
}
use pyconduit.Session.Events.{on_notice, on_notices, call}
use pyconduit.Session.Lifecycle.{idle_expire, begin_close, is_cancelled}

module _ (E : Env) where
  pub send_to-nil :
      (ss : List Subscriber) (frame : Json) (w : W E) → ss ≡ [] → send_to E ss frame w ≡ w
  unfolding send_to
  send_to-nil [] frame w e = refl
  send_to-nil (s ∷ ss) frame w e = cc

  broadcast-nil : (frame : Json) (w : W E) → w.subscribers ≡ [] → broadcast E frame w ≡ w
  unfolding broadcast
  broadcast-nil frame w e = send_to-nil w.subscribers frame w e

  told-nil : (frame : Json) (w : W E) → w.subscribers ≡ [] → (broadcast E frame w).subscribers ≡ []
  told-nil frame w e = ap (λ v. v.subscribers) (broadcast-nil frame w e) ∙ e

  schedule_reconnect-nil :
      (w : W E) → w.subscribers ≡ [] → (schedule_reconnect E w).subscribers ≡ []
  unfolding schedule_reconnect
  schedule_reconnect-nil w e = ground arith

  on_notice-nil : (n : Notice) (w : W E) → w.subscribers ≡ [] → (on_notice E n w).subscribers ≡ []
  unfolding on_notice log
  on_notice-nil (disconnected reason) w e = schedule_reconnect-nil _ (told-nil _ _ e)
  on_notice-nil (presence_update p) w e = told-nil _ _ e
  on_notice-nil (roster_snapshot items) w e = told-nil _ _ e
  on_notice-nil (muc_occupants m) w e = told-nil _ _ e
  on_notice-nil _ w e = told-nil _ w e

  on_notices-nil :
      (ns : List Notice) (w : W E) → w.subscribers ≡ [] → (on_notices E ns w).subscribers ≡ []
  unfolding on_notices
  on_notices-nil [] w e = e
  on_notices-nil (n ∷ ns) w e = on_notices-nil ns _ (on_notice-nil n w e)

  call-nil :
      {A : Type 0} (op : E.xmpp.State → Reply Notice E.xmpp.State A) (w : W E)
      → w.subscribers ≡ []
      → (call E op w).1.subscribers ≡ []
  unfolding call
  call-nil op w e = on_notices-nil _ _ e

  begin_close-nil : (w : W E) → w.subscribers ≡ [] → (begin_close E w).subscribers ≡ []
  unfolding begin_close cancel_idle
  begin_close-nil w e = ground arith

  begin_close-client : (w : W E) → (begin_close E w).client ≡ w.client
  unfolding begin_close cancel_idle
  begin_close-client w = ground arith

  -- With a `disconnect` that does not wait, the countdown of an empty account closes it, leaves it
  -- empty and goes on to the manager.
  pub idle_expire_at_once :
      (w : W E)
      → w.subscribers ≡ []
      → E.xmpp.disconnect_waits w.client ≡ false
      → ((idle_expire E w).1 ≡ true) × ((idle_expire E w).0.subscribers ≡ [])
  unfolding idle_expire
  idle_expire_at_once w e atonce =
      let empty : is_empty w.subscribers ≡ true = ap is_empty e in
      let still : E.xmpp.disconnect_waits (begin_close E w).client ≡ false =
        ap E.xmpp.disconnect_waits (begin_close-client w) ∙ atonce in
      let runs_on : (is_cancelled w.idle_task (begin_close E w).idle_task
            && E.xmpp.disconnect_waits (begin_close E w).client)
          ≡ false =
        ground (arith, still) in
      (rw (empty, runs_on) refl, rw (empty, runs_on) (call-nil _ _ (begin_close-nil w e)))
