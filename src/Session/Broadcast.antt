-- ===== src/Session/Broadcast.antt =====
-- What `_broadcast` of src/pyconduit/session/account.py does.
use pyconduit.Base.{
  true, false, ◌==◌, ◌||◌, contains, List, [], ◌∷◌, ◌++◌, map, ◌≡◌, ◌≢◌, refl, sym, ◌∙◌, ap, arith,
  Bool-cases, inl, inr,
}
use mathlib.Core.List.{append_assoc, append-nil, Sublistᴰ}
use pyconduit.Json.{Json}
use pyconduit.Session.World.{
  Env, W, Subscriber, subscriber_eq, discard, add, send_or_drop, send_to, broadcast,
}

-- No tab stands twice: what a set gives.
abbrev pub Distinct : List Subscriber → Type 0
Distinct [] = Unit {0}
Distinct (s ∷ ss) = (contains ss s ≡ false) × Distinct ss

contains-append :
    (s : Subscriber) (xs ys : List Subscriber)
    → contains (xs ++ ys) s ≡ (contains xs s || contains ys s)
contains-append s [] ys = refl
contains-append s (x ∷ xs) ys = ground (arith, contains-append s xs ys)

contains-discard :
    (s t : Subscriber) (xs : List Subscriber)
    → contains xs t ≡ false
    → contains (discard s xs) t ≡ false
unfolding discard
contains-discard s t [] h = refl
contains-discard s t (x ∷ xs) h = ground (arith, contains-discard s t xs)

pub discard-Distinct :
    (s : Subscriber) (xs : List Subscriber) → Distinct xs → Distinct (discard s xs)
unfolding discard
discard-Distinct s [] d = tt
discard-Distinct s (x ∷ xs) d = elim (Bool-cases (s == x)) [
  | inl same ↦ rw same d.1
  | inr other ↦ rw other (contains-discard s x xs d.0, discard-Distinct s xs d.1)
]

Distinct-append :
    (s : Subscriber) (xs : List Subscriber)
    → Distinct xs
    → contains xs s ≡ false
    → Distinct (xs ++ s ∷ [])
Distinct-append s [] d h = (refl, tt)
Distinct-append s (x ∷ xs) d h =
    (ground (arith, contains-append x xs (s ∷ [])), Distinct-append s xs d.1 (ground arith))

pub add-Distinct : (s : Subscriber) (xs : List Subscriber) → Distinct xs → Distinct (add s xs)
unfolding add
add-Distinct s xs d = elim (Bool-cases (contains xs s)) [
  | inl old ↦ rw old d
  | inr new ↦ rw new (Distinct-append s xs d new)
]

pub contains-add : (s : Subscriber) (xs : List Subscriber) → contains (add s xs) s ≡ true
unfolding add
contains-add s xs = elim (Bool-cases (contains xs s)) [
  | inl old ↦ rw old old
  | inr new ↦ rw new (at_end xs)
]
  where
    at_end : (ys : List Subscriber) → contains (ys ++ s ∷ []) s ≡ true
    at_end [] = ground arith
    at_end (y ∷ ys) = ground (arith, at_end ys)

pub contains-add_other :
    (s t : Subscriber) (xs : List Subscriber) → s ≢ t → contains (add s xs) t ≡ contains xs t
unfolding add
contains-add_other s t xs other = elim (Bool-cases (contains xs s)) [
  | inl old ↦ rw old refl
  | inr new ↦ rw new (ground (arith, contains-append t xs (s ∷ [])))
]

discard-middle :
    (s : Subscriber) (xs ys : List Subscriber)
    → Distinct (xs ++ s ∷ ys)
    → discard s (xs ++ s ∷ ys) ≡ xs ++ ys
unfolding discard
discard-middle s [] ys d = ground arith
discard-middle s (x ∷ xs) ys d =
    ground (arith, discard-middle s xs ys, contains-append x xs (s ∷ ys))

Distinct-remove :
    (s : Subscriber) (xs ys : List Subscriber) → Distinct (xs ++ s ∷ ys) → Distinct (xs ++ ys)
Distinct-remove s [] ys d = d.1
Distinct-remove s (x ∷ xs) ys d = (
  ground (arith, contains-append x xs (s ∷ ys), contains-append x xs ys),
  Distinct-remove s xs ys d.1,
)

module _ (E : Env) where
  -- The tabs of those in turn whose `send` returns, each asked after all that was sent before it.
  pub data Takers (frame : Json)
      : List (Subscriber × Json) → List Subscriber → List Subscriber → Type 0 where
    nobody : {sent : List (Subscriber × Json)} → Takers frame sent [] []
    returns :
        {sent : List (Subscriber × Json)} {s : Subscriber} {todo takers : List Subscriber}
        → E.accepts sent s frame ≡ true
        → Takers frame (sent ++ (s, frame) ∷ []) todo takers
        → Takers frame sent (s ∷ todo) (s ∷ takers)
    raises :
        {sent : List (Subscriber × Json)} {s : Subscriber} {todo takers : List Subscriber}
        → E.accepts sent s frame ≡ false
        → Takers frame sent todo takers
        → Takers frame sent (s ∷ todo) takers

  -- The frame goes once to each tab of the set, in turn; exactly those whose `send` returned are
  -- still attached after it, and nothing else of the account changes.
  pub record IsBroadcast (frame : Json) (w w' : W E) : Type 0 where
    pub receivers : List Subscriber
    pub among : Sublistᴰ receivers w.subscribers
    pub takers : Takers frame w.sent w.subscribers receivers
    pub attached : w'.subscribers ≡ receivers
    pub told : w'.sent ≡ w.sent ++ map (λ s. (s, frame)) receivers
    pub others : w' ≡ record w { subscribers = w'.subscribers; sent = w'.sent }

  pub step_told :
      (s : Subscriber) (frame : Json) (w : W E)
      → E.accepts w.sent s frame ≡ true
      → send_or_drop E s frame w ≡ record w { sent = w.sent ++ (s, frame) ∷ [] }
  unfolding send_or_drop
  step_told s frame w h = rw h

  pub step_dropped :
      (s : Subscriber) (frame : Json) (w : W E)
      → E.accepts w.sent s frame ≡ false
      → send_or_drop E s frame w ≡ record w { subscribers = discard s w.subscribers }
  unfolding send_or_drop
  step_dropped s frame w h = rw h

  -- The loop, when `done` have been told and `todo` are still to be.
  record IsRound (done todo : List Subscriber) (frame : Json) (w w' : W E) : Type 0 where
    receivers : List Subscriber
    among : Sublistᴰ receivers todo
    takers : Takers frame w.sent todo receivers
    attached : w'.subscribers ≡ done ++ receivers
    told : w'.sent ≡ w.sent ++ map (λ s. (s, frame)) receivers
    others : w' ≡ record w { subscribers = w'.subscribers; sent = w'.sent }

  told-IsRound :
      (done todo : List Subscriber) (s : Subscriber) (frame : Json) (w w' : W E)
      → E.accepts w.sent s frame ≡ true
      → IsRound (done ++ s ∷ []) todo frame (record w { sent = w.sent ++ (s, frame) ∷ [] }) w'
      → IsRound done (s ∷ todo) frame w w'
  told-IsRound done todo s frame w w' taken r = record {
    receivers = s ∷ r.receivers;
    among = Sublistᴰ.cons-cons refl r.among;
    takers = returns taken r.takers;
    attached = r.attached ∙ append_assoc done (s ∷ []) r.receivers;
    told = r.told ∙ append_assoc w.sent ((s, frame) ∷ []) (map (λ s. (s, frame)) r.receivers);
    others = r.others;
  }

  dropped-IsRound :
      (done todo : List Subscriber) (s : Subscriber) (frame : Json) (w w' : W E)
      → E.accepts w.sent s frame ≡ false
      → IsRound done todo frame (record w { subscribers = discard s w.subscribers }) w'
      → IsRound done (s ∷ todo) frame w w'
  dropped-IsRound done todo s frame w w' dead r = record {
    receivers = r.receivers;
    among = Sublistᴰ.cons r.among;
    takers = raises dead r.takers;
    attached = r.attached;
    told = r.told;
    others = r.others;
  }

  send_to-IsRound :
      (done todo : List Subscriber) (frame : Json) (w : W E)
      → w.subscribers ≡ done ++ todo
      → Distinct (done ++ todo)
      → IsRound done todo frame w (send_to E todo frame w)
  unfolding send_to
  send_to-IsRound done [] frame w e d = record {
    receivers = [];
    among = Sublistᴰ.slnil;
    takers = nobody;
    attached = e;
    told = sym (append-nil w.sent);
    others = refl;
  }
  send_to-IsRound done (s ∷ todo) frame w e d = elim (Bool-cases (E.accepts w.sent s frame)) [
    | inl taken ↦ rw (step_told s frame w taken) (
        told-IsRound done todo s frame w _ taken (
          send_to-IsRound (done ++ s ∷ []) todo frame _ (e ∙ sym (append_assoc done (s ∷ []) todo))
            (rw (append_assoc done (s ∷ []) todo) d)))
    | inr dead ↦ rw (step_dropped s frame w dead) (
        dropped-IsRound done todo s frame w _ dead (
          send_to-IsRound done todo frame _ (ap (discard s) e ∙ discard-middle s done todo d)
            (Distinct-remove s done todo d)))
  ]

  -- A broadcast to a set of tabs asks each tab's `send` in turn, after all that was sent before it:
  -- the frame goes once to each tab whose `send` returns, exactly those stay attached, and nothing
  -- else of the account changes.
  pub broadcast-IsBroadcast :
      (frame : Json) (w : W E) → Distinct w.subscribers → IsBroadcast frame w (broadcast E frame w)
  unfolding broadcast
  broadcast-IsBroadcast frame w d =
      let r = send_to-IsRound [] w.subscribers frame w refl d in
      record {
        receivers = r.receivers;
        among = r.among;
        takers = r.takers;
        attached = r.attached;
        told = r.told;
        others = r.others;
      }
