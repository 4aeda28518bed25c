-- ===== src/Session/View/Broadcasts.antt =====
-- What a broadcast of src/pyconduit/session/account.py tells a tab that takes every frame.
use pyconduit.Base.{
  Bool, true, false, ◌==◌, ◌||◌, if◌then◌else◌, contains, List, [], ◌∷◌, ◌≡◌, ◌≢◌, refl, ap, ◌∙◌,
  arith, Bool-cases, inl, inr,
}
use pyconduit.Json.{Json}
use pyconduit.Session.World.{
  Env, W, Subscriber, subscriber_eq, discard, send_or_drop, send_to, broadcast,
}
use pyconduit.Session.View.{View, see, watch, known, view_of, watch-append, see-see}

pub contains-discard_other :
    (s t : Subscriber) (xs : List Subscriber) → s ≢ t → contains (discard s xs) t ≡ contains xs t
unfolding discard
contains-discard_other s t [] other = refl
contains-discard_other s t (x ∷ xs) other = ground (arith, contains-discard_other s t xs)

module _ (E : Env) (sub : Subscriber)
    (takes : (sent : List (Subscriber × Json)) (frame : Json)
      → E.accepts sent sub frame ≡ true) where
  dead-other :
      (s : Subscriber) (frame : Json) (w : W E) → E.accepts w.sent s frame ≡ false → s ≢ sub
  dead-other s frame w dead same = cc (takes w.sent frame, dead, same)

  -- What the tab and the account know after the frame has gone to these tabs.
  pub record IsTold (told : Bool) (frame : Json) (w w' : W E) : Type 0 where
    pub stays : contains w'.subscribers sub ≡ contains w.subscribers sub
    pub view : view_of E sub w' ≡ (if told then see (view_of E sub w) frame else view_of E sub w)
    pub same : known E w' ≡ known E w

  send_or_drop-IsTold :
      (s : Subscriber) (frame : Json) (w : W E)
      → IsTold (sub == s) frame w (send_or_drop E s frame w)
  unfolding send_or_drop watch
  send_or_drop-IsTold s frame w = elim (Bool-cases (E.accepts w.sent s frame)) [
    | inl taken ↦
        rw taken
          (record { stays = refl; view = watch-append sub _ w.sent ((s, frame) ∷ []); same = refl })
    | inr dead ↦
        let other = dead-other s frame w dead in
        let differs : (sub == s) ≡ false = ground arith in
        rw dead (record {
          stays = contains-discard_other s sub w.subscribers other;
          view = rw differs refl;
          same = refl;
        })
  ]

  told_twice :
      (a b : Bool) (v : View) (frame : Json)
      → (if b then see (if a then see v frame else v) frame else (if a then see v frame else v))
        ≡ (if a || b then see v frame else v)
  told_twice true true v frame = see-see v frame
  told_twice true false v frame = refl
  told_twice false b v frame = refl

  send_to-IsTold :
      (ss : List Subscriber) (frame : Json) (w : W E)
      → IsTold (contains ss sub) frame w (send_to E ss frame w)
  unfolding send_to
  send_to-IsTold [] frame w = record { stays = refl; view = refl; same = refl }
  send_to-IsTold (s ∷ ss) frame w =
      let first = send_or_drop-IsTold s frame w in
      let rest = send_to-IsTold ss frame (send_or_drop E s frame w) in
      record {
        stays = rest.stays ∙ first.stays;
        view =
            rest.view
            ∙ ap (λ v. if contains ss sub then see v frame else v) first.view
            ∙ told_twice (sub == s) (contains ss sub) (view_of E sub w) frame;
        same = rest.same ∙ first.same;
      }

  -- An attached tab sees the frame, and stays.
  pub broadcast-IsTold :
      (frame : Json) (w : W E)
      → contains w.subscribers sub ≡ true
      → IsTold true frame w (broadcast E frame w)
  unfolding broadcast
  broadcast-IsTold frame w h =
      let r = send_to-IsTold w.subscribers frame w in
      record { stays = r.stays; view = r.view ∙ rw h refl; same = r.same }
