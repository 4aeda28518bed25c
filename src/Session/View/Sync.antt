-- ===== src/Session/View/Sync.antt =====
-- What the tabs of an account of src/pyconduit/session/account.py know, and what it knows, through
-- all that can happen.
use pyconduit.Base.{
  String, true, false, ◌==◌, List, [], ◌∷◌, map, ◌≡◌, ◌≢◌, refl, sym, ◌∙◌, subst, All, arith, inl,
}
use pyconduit.Json.{Json}
use pyconduit.Session.World.{Env, W, Subscriber, subscriber_eq, add, no_timer, cancel_idle, log}
use pyconduit.Session.Account.{attach, ensure_connected, snapshot}
use pyconduit.Session.Account.Snapshot.{to_tab, send_all-returns}
use pyconduit.Session.Broadcast.{contains-add, contains-add_other}
use pyconduit.Session.Invariant.{Inv, client-Inv}
use pyconduit.Session.Invariant.Coroutines.{Inv-rules, added-Inv}
use pyconduit.Session.Kept.Calls.{ensure_connected-Keeps}
use pyconduit.Session.History.{init, Step, Reach, here, next, Reach-Inv}
use pyconduit.Session.View.{View, blank, watch, known, view_of, watch-append}
use pyconduit.Session.View.Broadcasts.{contains-discard_other}
use pyconduit.Session.View.Follows.{Follows, IsClosed, send_apart-Follows, send_other-Follows}
use pyconduit.Session.View.Coroutines.{Follows-rules, Follows-moves}
use pyconduit.Session.View.Cache.{HasCache, HasCache-rules, HasCache-moves, send-HasCache}
use pyconduit.Session.Steps.{StepRules, IsOf, Step-Keeps}
use pyconduit.Session.View.Snapshot.{
  IsPartial, IsPartial-IsClosed, Same-IsClosed, watch-sees, snapshot-sees,
}

module _ (E : Env) where
  HasCache-steps : StepRules E (λ s. Unit {0}) (λ s. Unit {0}) (HasCache E)
  HasCache-steps = record {
    rules = HasCache-rules E;
    moves = HasCache-moves E;
    answers = λ s _ frame _. send-HasCache E s frame;
    tells = λ s frame _. send-HasCache E s frame;
    tasks = λ idle task shut w h. record { filed = h.filed };
    adds = λ s w _ h. record { filed = h.filed };
    drops = λ s w _ h. record { filed = h.filed };
  }

  all-IsOf : {v w : W E} (step : Step E v w) → IsOf (λ s. Unit {0}) (λ s. Unit {0}) step
  all-IsOf (Step.attaches s w) = tt
  all-IsOf (Step.detaches s w) = tt
  all-IsOf (Step.happens e w) = tt
  all-IsOf (Step.receives s raw w) = tt
  all-IsOf (Step.moves c w) = tt
  all-IsOf (Step.reconnects w) = tt
  all-IsOf (Step.expires w e) = tt
  all-IsOf (Step.closes w) = tt

  Reach-HasCache : {v w : W E} → Reach E v w → HasCache E v → HasCache E w
  Reach-HasCache here h = h
  Reach-HasCache (next r step) h =
      Step-Keeps HasCache-steps step (all-IsOf step) (Reach-HasCache r h)

  -- What happens while this tab neither comes nor goes.
  pub data Meanwhile (sub : Subscriber) (start : W E) : W E → Type 0 where
    begun : Meanwhile sub start start
    then_next :
        {v w : W E}
        → Meanwhile sub start v
        → (step : Step E v w) → IsOf (λ s. s ≢ sub) (λ s. Unit {0}) step
        → Meanwhile sub start w

  module _ (sub : Subscriber)
      (takes : (sent : List (Subscriber × Json)) (frame : Json)
        → E.accepts sent sub frame ≡ true) where
    Follows-steps :
        (R : View → View → Type 0)
        → IsClosed R
        → StepRules E (λ s. s ≢ sub) (λ s. Unit {0}) (Follows E sub R)
    Follows-steps R closed = record {
      rules = Follows-rules E sub R takes closed;
      moves = Follows-moves E sub R takes closed;
      answers = λ s _. send_other-Follows E sub R takes s;
      tells = λ s frame apart. send_apart-Follows E sub R takes s frame apart;
      tasks = λ idle task shut w h. record { attached = h.attached; related = h.related };
      adds = λ s w apart h. record {
        attached = contains-add_other s sub w.subscribers apart ∙ h.attached;
        related = h.related;
      };
      drops = λ s w apart h. record {
        attached = contains-discard_other s sub w.subscribers apart ∙ h.attached;
        related = h.related;
      };
    }

    Meanwhile-Follows :
        {v w : W E}
        → Meanwhile sub v w
        → Follows E sub (λ a b. a ≡ b) v
        → Follows E sub (λ a b. a ≡ b) w
    Meanwhile-Follows begun h = h
    Meanwhile-Follows (then_next m step other) h =
        Step-Keeps (Follows-steps _ Same-IsClosed) step other (Meanwhile-Follows m h)

    unseen :
        (sent : List (Subscriber × Json)) (v : View)
        → All (λ e. e.0 ≢ sub) sent
        → watch sub v sent ≡ v
    unfolding watch
    unseen [] v h = refl
    unseen ((s, frame) ∷ sent) v h =
        let apart : s ≢ sub = h.0 in
        let differs : (sub == s) ≡ false = ground arith in rw (differs, watch) (unseen sent v h.1)

    -- A tab that has been sent nothing yet is brought up to date by its attach.
    attach-Follows :
        (owner : String) (w : W E)
        → Inv E owner w.closing w
        → HasCache E w
        → All (λ e. e.0 ≢ sub) w.sent
        → Follows E sub (λ a b. a ≡ b) (attach E sub w).1
    unfolding attach cancel_idle log to_tab
    attach-Follows owner w inv cache fresh =
        let w1 = record w { subscribers = add sub w.subscribers; idle_task = no_timer } in
        let w2 = ensure_connected E w1 in
        let before : view_of E sub w1 ≡ blank = unseen w.sent blank fresh in
        let partial : Follows E sub IsPartial w2 =
          ensure_connected-Keeps (Follows-rules E sub IsPartial takes IsPartial-IsClosed)
            (Follows-moves E sub IsPartial takes IsPartial-IsClosed) w1
            (record {
              attached = contains-add sub w.subscribers;
              related =
                  subst (λ v. IsPartial v (known E w1)) (sym before)
                    (record { contacts = inl refl; presence = λ j. inl refl });
            }) in
        let inv2 : Inv E owner w.closing w2 =
          ensure_connected-Keeps (Inv-rules E owner w.closing) (client-Inv E owner w.closing) w1
            (added-Inv E owner w.closing sub w inv) in
        let cache2 : HasCache E w2 =
          ensure_connected-Keeps (HasCache-rules E) (HasCache-moves E) w1
            (record { filed = cache.filed }) in
        let frames = snapshot E sub.username w2 in
        rw (send_all-returns E sub takes frames w2) (record {
          attached = partial.attached;
          related =
              watch-append sub blank w2.sent (map (λ frame. (sub, frame)) frames)
              ∙ watch-sees sub (view_of E sub w2) frames
              ∙ snapshot-sees E sub.username (view_of E sub w2) w2 partial.related
                  inv2.presence_keys cache2.filed;
        })

    -- A tab that takes every frame, attaches to an account with any history and was sent nothing
    -- before knows at any later time, until it goes, exactly the contacts and the presence that the
    -- account knows, whatever other tabs, commands, events and tasks have done meanwhile.
    pub view_of-refines :
        (owner password : String) (c : E.xmpp.State) (w w' : W E)
        → Reach E (init E owner password c) w
        → All (λ e. e.0 ≢ sub) w.sent
        → Meanwhile sub (attach E sub w).1 w'
        → view_of E sub w' ≡ known E w'
    unfolding init
    view_of-refines owner password c w w' past fresh later =
        (Meanwhile-Follows later (
          attach-Follows owner w (Reach-Inv E owner password c w past)
            (Reach-HasCache past (record { filed = tt })) fresh)).related
