-- ===== src/Session/Steps.antt =====
-- What one step of a history of an account keeps, from what its statements keep.
use pyconduit.Base.{Bool, ◌||◌, ◌&&◌, not, List, [], ◌∷◌, is_empty, Bool-cases, inl, inr}
use pyconduit.Json.{Json}
use pyconduit.Errors.{Result, ok, raise}
use pyconduit.Session.World.{
  Env, W, Subscriber, add, discard, send, cancel_idle, start_idle_timer, IdleTask, ReconnectTask,
  absent, finished, looping, sleeping, is_pending,
}
use pyconduit.Session.Events.{connect}
use pyconduit.Session.Account.{attach, detach, send_all, start_if_empty}
use pyconduit.Session.Lifecycle.{
  reconnect_step, reconnect_from, reconnect_test, reconnect_wake, retried, begin_close, close,
  idle_expire, expire_empty,
}
use pyconduit.Session.Kept.{Keeps, Keeps-then, Keeps-run, Rules, Moves, Answers}
use pyconduit.Session.Kept.Calls.{
  moved_call-Keeps, on_event-Keeps, connect-Keeps, ensure_connected-Keeps,
}
use pyconduit.Socket.Reading.{on_frame-Keeps}
use pyconduit.Session.History.{
  Step, attaches, detaches, happens, receives, moves, reconnects, expires, closes,
}

-- Besides the statements: frames to a tab that comes, the writes of the tasks, and tabs that come
-- and go, of those tabs that the property lets come and go.
pub record StepRules (E : Env) (IsFree IsHeard : Subscriber → Type 0) (P : W E → Type 0)
    : Type 0 where
  pub rules : Rules E P
  pub moves : Moves E P
  pub answers : (s : Subscriber) → IsHeard s → Answers E P s
  pub tells : (s : Subscriber) (frame : Json) → IsFree s → Keeps P (send E s frame)
  pub tasks :
      (idle : IdleTask) (task : ReconnectTask E.float.Number) (shut : Bool) (w : W E)
      → P w
      → P (record w { idle_task = idle; reconnect_task = task; closing = shut })
  pub adds :
      (s : Subscriber) (w : W E)
      → IsFree s
      → P w
      → P (record w { subscribers = add s w.subscribers })
  pub drops :
      (s : Subscriber) (w : W E)
      → IsFree s
      → P w
      → P (record w { subscribers = discard s w.subscribers })

-- A step in which only such tabs come and go, and only such tabs send frames.
abbrev pub IsOf :
    {E : Env} → (Subscriber → Type 0) → (Subscriber → Type 0) → {v w : W E} → Step E v w → Type 0
IsOf IsFree IsHeard (attaches s w) = IsFree s
IsOf IsFree IsHeard (detaches s w) = IsFree s
IsOf IsFree IsHeard (receives s raw w) = IsHeard s
IsOf IsFree IsHeard _ = Unit {0}

module _ {E : Env} {IsFree IsHeard : Subscriber → Type 0} {P : W E → Type 0}
    (r : StepRules E IsFree IsHeard P) where
  send_all-Keeps : (s : Subscriber) (frames : List Json) → IsFree s → Keeps P (send_all E s frames)
  unfolding send_all
  send_all-Keeps s [] free = record { at = λ w h. h }
  send_all-Keeps s (frame ∷ frames) free =
      let rest = send_all-Keeps s frames free in
      record { at = λ w h. (Keeps-then (r.tells s frame free) rest).at w h }

  pub attach-Keeps : (s : Subscriber) → IsFree s → Keeps P (attach E s)
  unfolding attach cancel_idle
  attach-Keeps s free = record {
    at = λ w h.
        (Keeps-then (send_all-Keeps s _ free) (Keeps-run _ (λ w' q. r.rules.logs _ w' q))).at _ (
          ensure_connected-Keeps r.rules r.moves _ (
            r.adds s (record w { idle_task = _ }) free (r.tasks _ w.reconnect_task w.closing w h)));
  }

  started-Keeps : (w : W E) → P w → P (start_if_empty E w)
  unfolding start_idle_timer
  started-Keeps w h = elim (Bool-cases (is_empty w.subscribers)) [
    | inl none_left ↦ rw none_left (r.tasks _ w.reconnect_task w.closing w h)
    | inr some_left ↦ rw some_left h
  ]

  pub detach-Keeps : (s : Subscriber) (w : W E) → IsFree s → P w → P (detach E s w)
  unfolding detach
  detach-Keeps s w free h = started-Keeps _ (r.rules.logs _ _ (r.drops s w free h))

  with_task :
      (task : ReconnectTask E.float.Number) (w : W E) → P w → P (record w { reconnect_task = task })
  with_task task w h = r.tasks w.idle_task task w.closing w h

  retried-Keeps :
      (delay : E.float.Number) (a : Result (Unit {0}) × W E) → P a.1 → P (retried E delay a)
  retried-Keeps delay (ok _, w) h = with_task _ w h
  retried-Keeps delay (raise _, w) h = with_task _ w h

  reconnect_test-Keeps : (delay : E.float.Number) (w : W E) → P w → P (reconnect_test E delay w)
  unfolding reconnect_test
  reconnect_test-Keeps delay w h =
      elim (Bool-cases
        (not w.closing && (not (is_empty w.subscribers) && not (E.xmpp.is_connected w.client)))) [
          | inl on ↦ rw on (with_task _ w h)
          | inr over ↦ rw over (with_task _ w h)
        ]

  reconnect_wake-Keeps : (delay : E.float.Number) (w : W E) → P w → P (reconnect_wake E delay w)
  unfolding reconnect_wake
  reconnect_wake-Keeps delay w h = elim (Bool-cases (w.closing || is_empty w.subscribers)) [
    | inl over ↦ rw over (with_task _ w h)
    | inr on ↦ rw on (retried-Keeps delay (connect E w) ((connect-Keeps r.rules r.moves).at w h))
  ]

  reconnect_from-Keeps :
      (task : ReconnectTask E.float.Number) (w : W E) → P w → P (reconnect_from E task w)
  reconnect_from-Keeps (looping delay) w h = reconnect_test-Keeps delay w h
  reconnect_from-Keeps (sleeping delay) w h = reconnect_wake-Keeps delay w h
  reconnect_from-Keeps absent w h = h
  reconnect_from-Keeps finished w h = h

  pub reconnect_step-Keeps : (w : W E) → P w → P (reconnect_step E w)
  unfolding reconnect_step
  reconnect_step-Keeps w h = reconnect_from-Keeps w.reconnect_task w h

  begin_close-Keeps : (w : W E) → P w → P (begin_close E w)
  unfolding begin_close cancel_idle
  begin_close-Keeps w h = elim (Bool-cases (is_pending E w.reconnect_task)) [
    | inl pending ↦ rw pending (r.tasks _ _ _ w h)
    | inr idle ↦ rw idle (r.tasks _ w.reconnect_task _ w h)
  ]

  pub close-Keeps : (w : W E) → P w → P (close E w)
  unfolding close
  close-Keeps w h = (moved_call-Keeps r.rules r.moves _).at _ (begin_close-Keeps w h)

  expire_empty-Keeps : (cancelled : Bool) (w : W E) → P w → P (expire_empty E cancelled w).0
  expire_empty-Keeps cancelled w h =
      elim (Bool-cases (cancelled && E.xmpp.disconnect_waits w.client)) [
        | inl waits ↦ rw waits (r.moves _ w h)
        | inr atonce ↦ rw atonce ((moved_call-Keeps r.rules r.moves _).at w h)
      ]

  pub idle_expire-Keeps : (w : W E) → P w → P (idle_expire E w).0
  unfolding idle_expire
  idle_expire-Keeps w h = elim (Bool-cases (is_empty w.subscribers)) [
    | inl none_left ↦ rw none_left (expire_empty-Keeps _ _ (begin_close-Keeps w h))
    | inr some_left ↦ rw some_left (r.tasks _ w.reconnect_task w.closing w h)
  ]

  pub Step-Keeps : {v w : W E} (step : Step E v w) → IsOf IsFree IsHeard step → P v → P w
  Step-Keeps (attaches s w) free h = (attach-Keeps s free).at w h
  Step-Keeps (detaches s w) free h = detach-Keeps s w free h
  Step-Keeps (happens e w) _ h = (on_event-Keeps r.rules e).at w h
  Step-Keeps (receives s raw w) heard h =
      (on_frame-Keeps E s r.rules (r.answers s heard) raw).at w h
  Step-Keeps (moves c w) _ h = r.moves c w h
  Step-Keeps (reconnects w) _ h = reconnect_step-Keeps w h
  Step-Keeps (expires w _) _ h = idle_expire-Keeps w h
  Step-Keeps (closes w) _ h = close-Keeps w h
