-- ===== src/Session/Lifecycle/Laws.antt =====
-- What the tasks of an account do.
use pyconduit.Base.{
  String, Bool, true, false, ◌||◌, ◌&&◌, is_empty, ◌≡◌, ap, arith, Bool-cases, inl, inr,
}
use pyconduit.Errors.{Result, ok, raise}
use pyconduit.Session.World.{
  Env, W, counting, ReconnectTask, absent, finished, looping, sleeping, cancel_idle,
}
use pyconduit.Session.Events.{connect}
use pyconduit.Session.Lifecycle.{
  reconnect_test, reconnect_wake, retried, reconnect_from, expire_empty, reconnect_step,
  begin_close, close, idle_expire,
}
use pyconduit.Session.Invariant.{Inv}
use pyconduit.Session.Invariant.Coroutines.{call-Inv, connect-Inv}

module _ (E : Env) (owner : String) where
  begin_close-Inv :
      (shut : Bool) (w : W E) → Inv E owner shut w → Inv E owner true (begin_close E w)
  unfolding begin_close cancel_idle
  begin_close-Inv shut w h = ground arith

  -- `close` leaves the account closing, with neither task under way.
  pub close-Inv : (shut : Bool) (w : W E) → Inv E owner shut w → Inv E owner true (close E w)
  unfolding close
  close-Inv shut w h = (call-Inv E owner true _).at _ (begin_close-Inv shut w h)

  retried-Inv :
      (delay : E.float.Number) (r : Result (Unit {0}) × W E)
      → Inv E owner false r.1
      → Inv E owner false (retried E delay r)
  retried-Inv delay (ok _, w) h = ground arith
  retried-Inv delay (raise _, w) h = ground arith

  reconnect_test-Inv :
      (shut : Bool) (delay : E.float.Number) (w : W E)
      → Inv E owner shut w
      → Inv E owner shut (reconnect_test E delay w)
  unfolding reconnect_test
  reconnect_test-Inv shut delay w h = ground arith

  finished-Inv :
      (shut : Bool) (w : W E)
      → Inv E owner shut w
      → Inv E owner shut (record w { reconnect_task = finished })
  finished-Inv shut w h = ground arith

  reconnect_wake-Inv :
      (shut : Bool) (delay : E.float.Number) (w : W E)
      → Inv E owner shut w
      → Inv E owner shut (reconnect_wake E delay w)
  unfolding reconnect_wake
  reconnect_wake-Inv shut delay w h = elim (Bool-cases (w.closing || is_empty w.subscribers)) [
    | inl over ↦ rw over (finished-Inv shut w h)
    | inr on ↦
        let opened : shut ≡ false = ground arith in
        rw (on, opened)
          (retried-Inv delay (connect E w) ((connect-Inv E owner false).at w (rw opened at h)))
  ]

  pub reconnect_step-Inv :
      (shut : Bool) (w : W E) → Inv E owner shut w → Inv E owner shut (reconnect_step E w)
  unfolding reconnect_step
  reconnect_step-Inv shut w h = go w.reconnect_task
    where
      go : (t : ReconnectTask E.float.Number) → Inv E owner shut (reconnect_from E t w)
      go (looping delay) = reconnect_test-Inv shut delay w h
      go (sleeping delay) = reconnect_wake-Inv shut delay w h
      go absent = h
      go finished = h

  cut_short-Inv :
      (c : E.xmpp.State) (w : W E) → Inv E owner true w → Inv E owner true (record w { client = c })
  cut_short-Inv c w h = ground arith

  expire_empty-Inv :
      (cancelled : Bool) (w : W E)
      → Inv E owner true w
      → Inv E owner true (expire_empty E cancelled w).0
  expire_empty-Inv cancelled w h =
      elim (Bool-cases (cancelled && E.xmpp.disconnect_waits w.client)) [
        | inl waits ↦ rw waits (cut_short-Inv _ w h)
        | inr atonce ↦ rw atonce ((call-Inv E owner true _).at w h)
      ]

  -- The idle countdown of an account whose invariant holds finds no tab when it wakes: the account
  -- closes, and the invariant holds of it as of a closing one.
  pub idle_expire-closes :
      (shut : Bool) (w : W E)
      → Inv E owner shut w
      → w.idle_task ≡ counting
      → Inv E owner true (idle_expire E w).0
  unfolding idle_expire
  idle_expire-closes shut w h running =
      let none_left : is_empty w.subscribers ≡ true = ap is_empty (h.alone running) in
      rw none_left (expire_empty-Inv _ _ (begin_close-Inv shut w h))
