-- ===== src/Session/Unattended.antt =====
-- An account of src/pyconduit/session/account.py between its last tab and its end.
use pyconduit.Base.{
  String, length, true, ◌&&◌, ◌||◌, not, is_empty, List, [], ◌∷◌, ◌≡◌, refl, ap, ◌∙◌, arith,
  Bool-cases, inl, inr,
}
use pyconduit.Json.{Json}
use pyconduit.Interface.{Notice, disconnected, presence_update, roster_snapshot, muc_occupants}
use pyconduit.Session.World.{
  Env, W, Subscriber, AuditEntry, discard, counting, send, broadcast, log, schedule_reconnect,
  ReconnectTask, absent, finished, looping, sleeping, start_idle_timer, session_close,
}
use pyconduit.Session.Events.{on_notice}
use pyconduit.Session.Account.{detach, start_if_empty}
use pyconduit.Session.Lifecycle.{
  reconnect_step, reconnect_from, reconnect_test, reconnect_wake, idle_expire,
}
use pyconduit.Session.Lifecycle.Laws.{idle_expire-closes}
use pyconduit.Session.Lifecycle.Empty.{send_to-nil}
use pyconduit.Session.Kept.{Rules, Answers}
use pyconduit.Session.Kept.Rooms.{remember_room-Keeps, forget_room-Keeps, forget_occupants-Keeps}
use pyconduit.Session.Kept.Calls.{on_event-Keeps}
use pyconduit.Socket.Reading.{on_frame-Keeps}
use pyconduit.Session.History.{
  Step, attaches, detaches, happens, receives, moves, reconnects, expires, closes, Holds,
  Step-Holds,
}

module _ (E : Env) where
  -- No tab is attached, and the countdown runs.
  pub record IsUnattended (w : W E) : Type 0 where
    pub empty : w.subscribers ≡ []
    pub running : w.idle_task ≡ counting

  same-IsUnattended :
      (v w : W E)
      → w.subscribers ≡ v.subscribers
      → w.idle_task ≡ v.idle_task
      → IsUnattended v
      → IsUnattended w
  same-IsUnattended v w a b h = record { empty = a ∙ h.empty; running = b ∙ h.running }

  broadcast-IsUnattended :
      (frame : Json) (w : W E) → IsUnattended w → IsUnattended (broadcast E frame w)
  unfolding broadcast
  broadcast-IsUnattended frame w h =
      let e = send_to-nil E w.subscribers frame w h.empty in
      same-IsUnattended w _ (ap (λ v. v.subscribers) e) (ap (λ v. v.idle_task) e) h

  send-IsUnattended : (s : Subscriber) → Answers E IsUnattended s
  unfolding send
  send-IsUnattended s frame other = record {
    at = λ w h. elim (Bool-cases (E.accepts w.sent s frame)) [
      | inl taken ↦ rw taken (same-IsUnattended w _ refl refl h)
      | inr dead ↦ rw dead h
    ];
  }

  log-IsUnattended : (entry : AuditEntry) (w : W E) → IsUnattended w → IsUnattended (log E entry w)
  unfolding log
  log-IsUnattended entry w h = same-IsUnattended w _ refl refl h

  schedule-IsUnattended : (w : W E) → IsUnattended w → IsUnattended (schedule_reconnect E w)
  unfolding schedule_reconnect
  schedule-IsUnattended w h = ground arith

  on_notice-IsUnattended : (n : Notice) (w : W E) → IsUnattended w → IsUnattended (on_notice E n w)
  unfolding on_notice
  on_notice-IsUnattended (disconnected reason) w h =
      schedule-IsUnattended _ (broadcast-IsUnattended _ _ (log-IsUnattended _ w h))
  on_notice-IsUnattended (presence_update p) w h =
      broadcast-IsUnattended _ _ (same-IsUnattended w _ refl refl h)
  on_notice-IsUnattended (roster_snapshot items) w h =
      broadcast-IsUnattended _ _ (same-IsUnattended w _ refl refl h)
  on_notice-IsUnattended (muc_occupants m) w h =
      broadcast-IsUnattended _ _ (same-IsUnattended w _ refl refl h)
  on_notice-IsUnattended _ w h = broadcast-IsUnattended _ w h

  IsUnattended-rules : Rules E IsUnattended
  IsUnattended-rules = record {
    spreads = λ frame _. broadcast-IsUnattended frame;
    notices = on_notice-IsUnattended;
    requests = λ _ w h. same-IsUnattended w _ refl refl h;
    logs = log-IsUnattended;
    schedules = schedule-IsUnattended;
    joins = λ room nick _.
        remember_room-Keeps E (λ rooms w h. same-IsUnattended w _ refl refl h) room nick;
    leaves = forget_room-Keeps E (λ rooms w h. same-IsUnattended w _ refl refl h);
    empties = forget_occupants-Keeps E (λ occupants w h. same-IsUnattended w _ refl refl h);
  }

  -- A step in which no tab comes, and which does not close the account.
  abbrev pub IsWaiting : {v w : W E} → Step E v w → Type 0
  IsWaiting (attaches s w) = ⊥
  IsWaiting (expires w e) = ⊥
  IsWaiting (closes w) = ⊥
  IsWaiting _ = Unit {0}

  -- Such steps.
  pub data Unattended (start : W E) : W E → Type 0 where
    begun : Unattended start start
    then_next :
        {v w : W E} → Unattended start v → (step : Step E v w) → IsWaiting step → Unattended start w

  started-IsUnattended :
      (w : W E) → (start_if_empty E w).subscribers ≡ [] → IsUnattended (start_if_empty E w)
  unfolding start_idle_timer
  started-IsUnattended w e = go w.subscribers refl
    where
      go : (ss : List Subscriber) → w.subscribers ≡ ss → IsUnattended (start_if_empty E w)
      go [] none_left = rw none_left (record { empty = refl; running = refl })
      go (s ∷ ss) some_left = absurd (cc (e, some_left))

  detach-IsUnattended :
      (s : Subscriber) (w : W E) → (detach E s w).subscribers ≡ [] → IsUnattended (detach E s w)
  unfolding detach
  detach-IsUnattended s w e =
      let left = record w { subscribers = discard s w.subscribers } in
      started-IsUnattended
        (log E (session_close s.username left.jid s.ip (length left.subscribers)) left) e

  start_if_empty-subscribers : (w : W E) → (start_if_empty E w).subscribers ≡ w.subscribers
  unfolding start_idle_timer
  start_if_empty-subscribers w = elim (Bool-cases (is_empty w.subscribers)) [
    | inl none_left ↦ rw none_left refl
    | inr some_left ↦ rw some_left refl
  ]

  discard-nil : (s : Subscriber) (ss : List Subscriber) → ss ≡ [] → discard s ss ≡ []
  unfolding discard
  discard-nil s ss e = rw (e, discard) refl

  again-IsUnattended : (s : Subscriber) (w : W E) → IsUnattended w → IsUnattended (detach E s w)
  unfolding detach log
  again-IsUnattended s w h =
      let left = record w { subscribers = discard s w.subscribers } in
      detach-IsUnattended s w (
        start_if_empty-subscribers
          (log E (session_close s.username left.jid s.ip (length left.subscribers)) left)
        ∙ discard-nil s w.subscribers h.empty)

  with_task :
      (task : ReconnectTask E.float.Number) (w : W E)
      → IsUnattended w
      → IsUnattended (record w { reconnect_task = task })
  with_task task w h = same-IsUnattended w _ refl refl h

  reconnect_from-IsUnattended :
      (task : ReconnectTask E.float.Number) (w : W E)
      → IsUnattended w
      → IsUnattended (reconnect_from E task w)
  unfolding reconnect_test reconnect_wake
  reconnect_from-IsUnattended absent w h = h
  reconnect_from-IsUnattended finished w h = h
  reconnect_from-IsUnattended (looping delay) w h =
      elim (Bool-cases
        (not w.closing && (not (is_empty w.subscribers) && not (E.xmpp.is_connected w.client)))) [
          | inl on ↦ rw on (with_task _ w h)
          | inr over ↦ rw over (with_task _ w h)
        ]
  reconnect_from-IsUnattended (sleeping delay) w h =
      let over : (w.closing || is_empty w.subscribers) ≡ true = ground (arith, h.empty) in
      rw over (with_task _ w h)

  Step-IsUnattended :
      {v w : W E} (step : Step E v w) → IsWaiting step → IsUnattended v → IsUnattended w
  unfolding reconnect_step
  Step-IsUnattended (attaches s w) never h = absurd never
  Step-IsUnattended (expires w e) never h = absurd never
  Step-IsUnattended (closes w) never h = absurd never
  Step-IsUnattended (detaches s w) _ h = again-IsUnattended s w h
  Step-IsUnattended (happens e w) _ h = (on_event-Keeps IsUnattended-rules e).at w h
  Step-IsUnattended (receives s raw w) _ h =
      (on_frame-Keeps E s IsUnattended-rules (send-IsUnattended s) raw).at w h
  Step-IsUnattended (moves c w) _ h = same-IsUnattended w _ refl refl h
  Step-IsUnattended (reconnects w) _ h = reconnect_from-IsUnattended w.reconnect_task w h

  Unattended-IsUnattended : {v w : W E} → Unattended v w → IsUnattended v → IsUnattended w
  Unattended-IsUnattended begun h = h
  Unattended-IsUnattended (then_next u step quiet) h =
      Step-IsUnattended step quiet (Unattended-IsUnattended u h)

  module _ (owner : String) where
    Unattended-Holds : {v w : W E} → Unattended v w → Holds E owner v → Holds E owner w
    Unattended-Holds begun h = h
    Unattended-Holds (then_next u step quiet) h = Step-Holds E owner step (Unattended-Holds u h)

    -- When a sound account's last tab has been detached, its countdown runs, and goes on running
    -- whatever events, frames, reconnects and changes of its client follow while no tab comes; the
    -- account then closes when the countdown wakes.
    pub detach-closes :
        (s : Subscriber) (w w' : W E)
        → Holds E owner w
        → (detach E s w).subscribers ≡ []
        → Unattended (detach E s w) w'
        → (w'.idle_task ≡ counting) × ((idle_expire E w').0.closing ≡ true)
    detach-closes s w w' h left later =
        let waiting = Unattended-IsUnattended later (detach-IsUnattended s w left) in
        let (shut, inv) = Unattended-Holds later (Step-Holds E owner (detaches s w) h) in
        (waiting.running, (idle_expire-closes E owner shut w' inv waiting.running).phase)
