-- ===== src/Session/Lifecycle/Ends.antt =====
-- The reconnect loop of src/pyconduit/session/account.py comes to an end.
use pyconduit.Base.{
  ℕ, zero, suc, ◌+◌, ◌<◌, ◌≤◌, false, ◌&&◌, ◌||◌, not, is_empty, ◌≡◌, refl, sym, ap, subst, arith,
  Bool-cases, inl, inr,
}
use pyconduit.Errors.{Error, Result, ok, raise}
use pyconduit.Session.World.{Env, W, ReconnectTask, absent, finished, looping, sleeping, is_pending}
use pyconduit.Session.Events.{connect}
use pyconduit.Session.Lifecycle.{
  reconnect_test, reconnect_wake, reconnect_from, reconnect_step, retried, next_delay,
}

module _ (E : Env) where
  -- The loop's steps, with nothing else between them.
  unfoldable pub reconnect_steps : ℕ → W E → W E
  reconnect_steps zero w = w
  reconnect_steps (suc n) w = reconnect_steps n (reconnect_step E w)

  abbrev pub IsOver : W E → Type 0
  IsOver w = is_pending E w.reconnect_task ≡ false

  step-of_over : (w : W E) → IsOver w → reconnect_step E w ≡ w
  unfolding reconnect_step
  step-of_over w h = go w.reconnect_task h
    where
      go :
          (task : ReconnectTask E.float.Number)
          → is_pending E task ≡ false
          → reconnect_from E task w ≡ w
      go absent h = refl
      go finished h = refl
      go (looping delay) h = absurd (cc)
      go (sleeping delay) h = absurd (cc)

  then_ends :
      (n : ℕ) (w v : W E)
      → reconnect_step E w ≡ v
      → IsOver (reconnect_steps n v)
      → IsOver (reconnect_steps (suc n) w)
  unfolding reconnect_steps
  then_ends n w v e h = subst (λ x. IsOver (reconnect_steps n x)) (sym e) h

  steps-IsOver : (n : ℕ) (w : W E) → IsOver w → IsOver (reconnect_steps n w)
  unfolding reconnect_steps
  steps-IsOver zero w h = h
  steps-IsOver (suc n) w h = then_ends n w w (step-of_over w h) (steps-IsOver n w h)

  step_at :
      (task : ReconnectTask E.float.Number) (w : W E)
      → w.reconnect_task ≡ task
      → reconnect_step E w ≡ reconnect_from E task w
  unfolding reconnect_step
  step_at task w e = ap (λ t. reconnect_from E t w) e

  -- The loop's condition, which puts it to sleep or ends it.
  looping-ends :
      (n : ℕ) (delay : E.float.Number) (w : W E)
      → w.reconnect_task ≡ looping delay
      → IsOver (reconnect_steps n (record w { reconnect_task = sleeping delay }))
      → IsOver (reconnect_steps (suc n) w)
  unfolding reconnect_test
  looping-ends n delay w e asleep =
      then_ends n w (reconnect_test E delay w) (step_at (looping delay) w e)
        (elim (Bool-cases
          (not w.closing && (not (is_empty w.subscribers) && not (E.xmpp.is_connected w.client)))) [
            | inl on ↦ rw on asleep
            | inr done ↦ rw done (steps-IsOver n (record w { reconnect_task = finished }) refl)
          ])

  module _ (patience : E.xmpp.State → ℕ)
      (tires : (w : W E) (exc : Error)
        → (connect E w).0 ≡ raise exc
        → patience (connect E w).1.client < patience w.client) where
    -- A sleeping loop of a client with this patience at most ends in so many steps.
    abbrev IsOverBy : ℕ → Type 0
    IsOverBy k =
        (n : ℕ) (delay : E.float.Number) (w : W E)
        → patience w.client ≤ k
        → k + k < n
        → w.reconnect_task ≡ sleeping delay
        → IsOver (reconnect_steps n w)

    abbrev IsOverBelow : ℕ → Type 0
    IsOverBelow zero = Unit {0}
    IsOverBelow (suc k) = IsOverBy k

    -- After the attempt: it has ended the loop, or the client has less patience.
    retried-ends :
        (k n : ℕ) (delay : E.float.Number) (r : Result (Unit {0}) × W E)
        → IsOverBelow k
        → ((exc : Error) → r.0 ≡ raise exc → patience r.1.client < k)
        → k + k ≤ n
        → IsOver (reconnect_steps n (retried E delay r))
    retried-ends k n delay (ok _, w) below h le =
        steps-IsOver n (record w { reconnect_task = finished }) refl
    retried-ends zero n delay (raise exc, w) below h le = absurd (omega (arith, h exc refl))
    retried-ends (suc k) zero delay (raise exc, w) below h le = absurd (omega arith)
    retried-ends (suc k) (suc n) delay (raise exc, w) below h le =
        let longer = next_delay E delay in
        looping-ends n longer (record w { reconnect_task = looping longer }) refl
          (below n longer (record w { reconnect_task = sleeping longer })
            (omega (arith, h exc refl)) (omega arith) refl)

    nap-ends : (k : ℕ) → IsOverBelow k → IsOverBy k
    unfolding reconnect_wake
    nap-ends k below zero delay w p le e = absurd (omega arith)
    nap-ends k below (suc n) delay w p le e =
        then_ends n w (reconnect_wake E delay w) (step_at (sleeping delay) w e)
          (elim (Bool-cases (w.closing || is_empty w.subscribers)) [
            | inl over ↦ rw over (steps-IsOver n (record w { reconnect_task = finished }) refl)
            | inr on ↦ rw on (
                retried-ends k n delay (connect E w) below
                  (λ exc broken. omega (arith, tires w exc broken)) (omega arith))
          ])

    sleeping-ends : (k : ℕ) → IsOverBy k
    sleeping-ends zero = nap-ends zero tt
    sleeping-ends (suc k) = nap-ends (suc k) (sleeping-ends k)

    -- Where each connect that raises leaves the client less patience, and nothing else happens
    -- meanwhile, the reconnect loop, wherever it stands, is over after two steps for each unit of
    -- the patience and two more, and stays so.
    pub reconnect_steps-IsOver :
        (n : ℕ) (w : W E)
        → patience w.client + patience w.client + 1 < n
        → IsOver (reconnect_steps n w)
    reconnect_steps-IsOver zero w le = absurd (omega arith)
    reconnect_steps-IsOver (suc n) w le = go w.reconnect_task refl
      where
        go :
            (task : ReconnectTask E.float.Number)
            → w.reconnect_task ≡ task
            → IsOver (reconnect_steps (suc n) w)
        go absent e = steps-IsOver (suc n) w (ap (is_pending E) e)
        go finished e = steps-IsOver (suc n) w (ap (is_pending E) e)
        go (looping delay) e = looping-ends n delay w e (
            sleeping-ends (patience w.client) n delay (record w { reconnect_task = sleeping delay })
              (omega arith) (omega arith) refl)
        go (sleeping delay) e =
            sleeping-ends (patience w.client) (suc n) delay w (omega arith) (omega arith) e
