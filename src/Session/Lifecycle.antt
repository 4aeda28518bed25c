-- ===== src/Session/Lifecycle.antt =====
-- src/pyconduit/session/account.py: the reconnect loop, the idle countdown and `close`. A task runs
-- from one sleep to the next in one step; anything may happen to the account in between.
pub mod Laws
pub mod Empty
pub mod Ends
use pyconduit.Base.{Bool, true, false, ◌&&◌, ◌||◌, not, List, [], ◌∷◌, is_empty, if◌then◌else◌}
use pyconduit.Errors.{Result, ok, raise}
use pyconduit.Session.World.{
  Env, World, W, IdleTask, counting, expired, no_timer, ReconnectTask, absent, finished, looping,
  sleeping, is_pending, cancel_idle,
}
use pyconduit.Session.Events.{connect, call, on_notices}

-- Whether the countdown that ran has been cancelled: `_cancel_idle` alone lets go of one that runs.
abbrev pub is_cancelled : IdleTask → IdleTask → Bool
is_cancelled counting no_timer = true
is_cancelled _ _ = false

module _ (E : Env) where
  -- `min(delay * rc.factor, rc.max_seconds)`, as Python's `min` picks of two.
  unfoldable pub next_delay : E.float.Number → E.float.Number
  next_delay delay =
      let longer = E.float.times delay E.config.xmpp.reconnect.factor in
      if E.float.less E.config.xmpp.reconnect.max_seconds longer
      then E.config.xmpp.reconnect.max_seconds
      else longer

  -- The condition of the `while`.
  unfoldable pub reconnect_test : E.float.Number → W E → W E
  reconnect_test delay w =
      if not w.closing && (not (is_empty w.subscribers) && not (E.xmpp.is_connected w.client))
      then record w { reconnect_task = sleeping delay }
      else record w { reconnect_task = finished }

  abbrev pub retried : E.float.Number → Result (Unit {0}) × W E → W E
  retried delay (ok _, w) = record w { reconnect_task = finished }
  retried delay (raise _, w) = record w { reconnect_task = looping (next_delay delay) }

  -- After the sleep.
  unfoldable pub reconnect_wake : E.float.Number → W E → W E
  reconnect_wake delay w =
      if w.closing || is_empty w.subscribers
      then record w { reconnect_task = finished }
      else retried delay (connect E w)

  abbrev pub reconnect_from : ReconnectTask E.float.Number → W E → W E
  reconnect_from (looping delay) w = reconnect_test delay w
  reconnect_from (sleeping delay) w = reconnect_wake delay w
  reconnect_from _ w = w

  -- `_reconnect_loop`, up to its next sleep.
  unfoldable pub reconnect_step : W E → W E
  reconnect_step w = reconnect_from w.reconnect_task w

  -- `close`, up to the client's `disconnect`.
  unfoldable pub begin_close : W E → W E
  begin_close w =
      let w' = cancel_idle E (record w { closing = true }) in
      if is_pending E w'.reconnect_task then record w' { reconnect_task = finished } else w'

  -- `close`
  unfoldable pub close : W E → W E
  close w = (call E E.xmpp.disconnect (begin_close w)).1

  -- `_idle_countdown` once no tab is there; whether it goes on to call `_on_idle_expired`. A task
  -- that has been cancelled ends at its next wait, which is that of `disconnect`, if it waits.
  abbrev pub expire_empty : Bool → W E → W E × Bool
  expire_empty cancelled w =
      if cancelled && E.xmpp.disconnect_waits w.client
      then (record w { client = E.xmpp.disconnect_cancelled w.client }, false)
      else ((call E E.xmpp.disconnect w).1, true)

  -- `_idle_countdown` after its sleep: `close` cancels `_idle_task`, the task that runs here.
  unfoldable pub idle_expire : W E → W E × Bool
  idle_expire w =
      if is_empty w.subscribers
      then (let w' = begin_close w in expire_empty (is_cancelled w.idle_task w'.idle_task) w')
      else (record w { idle_task = expired }, false)
