-- ===== src/Session/Private.antt =====
-- Whom the frames of an account of src/pyconduit/session/account.py reach.
use pyconduit.Base.{
  String, contains, List, [], ◌∷◌, ◌++◌, ◌≡◌, refl, ◌∙◌, ◌==◌, All, arith, Bool-cases, inl, inr,
}
use pyconduit.Json.{Json}
use pyconduit.Interface.{Notice, disconnected, presence_update, roster_snapshot, muc_occupants}
use pyconduit.Session.World.{
  Env, W, Subscriber, subscriber_eq, AuditEntry, add, discard, send, send_or_drop, send_to,
  broadcast, log, schedule_reconnect,
}
use pyconduit.Session.Events.{on_notice}
use pyconduit.Session.Kept.{Keeps, Rules}
use pyconduit.Session.Kept.Rooms.{remember_room-Keeps, forget_room-Keeps, forget_occupants-Keeps}
use pyconduit.Session.Steps.{StepRules}
use pyconduit.Session.History.{init}

All-append : {A : Type 0} (P : A → Type 0) (xs ys : List A) → All P xs → All P ys → All P (xs ++ ys)
All-append P [] ys h k = k
All-append P (x ∷ xs) ys h k = (h.0, All-append P xs ys h.1 k)

module _ (E : Env) (IsFit : Subscriber → Type 0) (owner : String) where
  -- The account of this JID has only such tabs, and has sent to such tabs only.
  pub record IsPrivate (w : W E) : Type 0 where
    pub own : w.jid ≡ owner
    pub members : All IsFit w.subscribers
    pub told : All (λ e. IsFit e.0) w.sent

  pub init-IsPrivate : (password : String) (c : E.xmpp.State) → IsPrivate (init E owner password c)
  unfolding init
  init-IsPrivate password c = record { own = refl; members = tt; told = tt }

  -- A state with the same tabs, to which the same was sent.
  same-IsPrivate :
      (v w : W E)
      → w.jid ≡ v.jid
      → w.subscribers ≡ v.subscribers
      → w.sent ≡ v.sent
      → IsPrivate v
      → IsPrivate w
  same-IsPrivate v w a b c h = record {
    own = a ∙ h.own;
    members = rw b h.members;
    told = rw c h.told;
  }

  sent-IsPrivate :
      (s : Subscriber) (frame : Json) (w : W E)
      → IsFit s
      → IsPrivate w
      → IsPrivate (record w { sent = w.sent ++ (s, frame) ∷ [] })
  sent-IsPrivate s frame w fit h = record {
    own = h.own;
    members = h.members;
    told = All-append _ w.sent ((s, frame) ∷ []) h.told (fit, tt);
  }

  discard-All : (s : Subscriber) (ss : List Subscriber) → All IsFit ss → All IsFit (discard s ss)
  unfolding discard
  discard-All s [] h = tt
  discard-All s (t ∷ ss) h = elim (Bool-cases (s == t)) [
    | inl same ↦ rw same h.1
    | inr other ↦ rw other (h.0, discard-All s ss h.1)
  ]

  dropped-IsPrivate :
      (s : Subscriber) (w : W E)
      → IsPrivate w
      → IsPrivate (record w { subscribers = discard s w.subscribers })
  dropped-IsPrivate s w h = record {
    own = h.own;
    members = discard-All s w.subscribers h.members;
    told = h.told;
  }

  added-IsPrivate :
      (s : Subscriber) (w : W E)
      → IsFit s
      → IsPrivate w
      → IsPrivate (record w { subscribers = add s w.subscribers })
  unfolding add
  added-IsPrivate s w fit h = elim (Bool-cases (contains w.subscribers s)) [
    | inl old ↦ rw old h
    | inr new ↦ rw new (record {
      own = h.own;
      members = All-append _ w.subscribers (s ∷ []) h.members (fit, tt);
      told = h.told;
    })
  ]

  send-IsPrivate : (s : Subscriber) (frame : Json) → IsFit s → Keeps IsPrivate (send E s frame)
  unfolding send
  send-IsPrivate s frame fit = record {
    at = λ w h. elim (Bool-cases (E.accepts w.sent s frame)) [
      | inl taken ↦ rw taken (sent-IsPrivate s frame w fit h)
      | inr dead ↦ rw dead h
    ];
  }

  send_or_drop-IsPrivate :
      (s : Subscriber) (frame : Json) (w : W E)
      → IsFit s
      → IsPrivate w
      → IsPrivate (send_or_drop E s frame w)
  unfolding send_or_drop
  send_or_drop-IsPrivate s frame w fit h = elim (Bool-cases (E.accepts w.sent s frame)) [
    | inl taken ↦ rw taken (sent-IsPrivate s frame w fit h)
    | inr dead ↦ rw dead (dropped-IsPrivate s w h)
  ]

  send_to-IsPrivate :
      (ss : List Subscriber) (frame : Json) (w : W E)
      → All IsFit ss
      → IsPrivate w
      → IsPrivate (send_to E ss frame w)
  unfolding send_to
  send_to-IsPrivate [] frame w fit h = h
  send_to-IsPrivate (s ∷ ss) frame w fit h =
      send_to-IsPrivate ss frame _ fit.1 (send_or_drop-IsPrivate s frame w fit.0 h)

  broadcast-IsPrivate : (frame : Json) (w : W E) → IsPrivate w → IsPrivate (broadcast E frame w)
  unfolding broadcast
  broadcast-IsPrivate frame w h = send_to-IsPrivate w.subscribers frame w h.members h

  log-IsPrivate : (entry : AuditEntry) (w : W E) → IsPrivate w → IsPrivate (log E entry w)
  unfolding log
  log-IsPrivate entry w h = same-IsPrivate w _ refl refl refl h

  schedule-IsPrivate : (w : W E) → IsPrivate w → IsPrivate (schedule_reconnect E w)
  unfolding schedule_reconnect
  schedule-IsPrivate w h = ground arith

  on_notice-IsPrivate : (n : Notice) (w : W E) → IsPrivate w → IsPrivate (on_notice E n w)
  unfolding on_notice
  on_notice-IsPrivate (disconnected reason) w h =
      schedule-IsPrivate _ (broadcast-IsPrivate _ _ (log-IsPrivate _ w h))
  on_notice-IsPrivate (presence_update p) w h =
      broadcast-IsPrivate _ _ (same-IsPrivate w _ refl refl refl h)
  on_notice-IsPrivate (roster_snapshot items) w h =
      broadcast-IsPrivate _ _ (same-IsPrivate w _ refl refl refl h)
  on_notice-IsPrivate (muc_occupants m) w h =
      broadcast-IsPrivate _ _ (same-IsPrivate w _ refl refl refl h)
  on_notice-IsPrivate _ w h = broadcast-IsPrivate _ w h

  IsPrivate-rules : Rules E IsPrivate
  IsPrivate-rules = record {
    spreads = λ frame _. broadcast-IsPrivate frame;
    notices = on_notice-IsPrivate;
    requests = λ _ w h. same-IsPrivate w _ refl refl refl h;
    logs = log-IsPrivate;
    schedules = schedule-IsPrivate;
    joins = λ room nick _.
        remember_room-Keeps E (λ rooms w h. same-IsPrivate w _ refl refl refl h) room nick;
    leaves = forget_room-Keeps E (λ rooms w h. same-IsPrivate w _ refl refl refl h);
    empties = forget_occupants-Keeps E (λ occupants w h. same-IsPrivate w _ refl refl refl h);
  }

  -- Where only such tabs come and only such tabs send frames, only such tabs are sent anything.
  pub IsPrivate-steps : StepRules E IsFit IsFit IsPrivate
  IsPrivate-steps = record {
    rules = IsPrivate-rules;
    moves = λ c w h. same-IsPrivate w _ refl refl refl h;
    answers = λ s fit frame _. send-IsPrivate s frame fit;
    tells = send-IsPrivate;
    tasks = λ idle task shut w h. same-IsPrivate w _ refl refl refl h;
    adds = added-IsPrivate;
    drops = λ s w _ h. dropped-IsPrivate s w h;
  }
