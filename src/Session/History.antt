-- ===== src/Session/History.antt =====
-- Everything that can happen to an account of src/pyconduit/session/account.py: tabs that come and
-- go, a tab's frame as web/ws.py handles it, the client's events, the steps of the account's own two
-- tasks, `close`, and the client's state moving on its own.
use pyconduit.Base.{String, Bool, true, false, [], ◌≡◌, refl, sym, subst}
use pyconduit.Json.{Json}
use pyconduit.Interface.{Event}
use pyconduit.Session.World.{Env, W, Subscriber, counting, no_timer, absent, is_pending}
use pyconduit.Session.Events.{on_event}
use pyconduit.Session.Account.{attach, detach}
use pyconduit.Socket.Pump.{on_frame}
use pyconduit.Session.Lifecycle.{reconnect_step, idle_expire, close}
use pyconduit.Session.Lifecycle.Laws.{reconnect_step-Inv, idle_expire-closes, close-Inv}
use pyconduit.Session.Invariant.{Inv, client-Inv}
use pyconduit.Session.Invariant.Coroutines.{on_event-Inv, attach-Inv, detach-Inv}
use pyconduit.Socket.Reading.{on_frame-Inv}

module _ (E : Env) where
  -- `Account.__init__`, with the client that the factory made.
  unfoldable pub init : String → String → E.xmpp.State → W E
  init jid password client = record {
    jid = jid;
    password = password;
    client = client;
    subscribers = [];
    roster = [];
    presence = [];
    joined_rooms = [];
    muc_rosters = [];
    idle_task = no_timer;
    reconnect_task = absent;
    closing = false;
    sent = [];
    audit = [];
  }

  pub data Step : W E → W E → Type 0 where
    attaches : (s : Subscriber) (w : W E) → Step w (attach E s w).1
    detaches : (s : Subscriber) (w : W E) → Step w (detach E s w)
    happens : (e : Event) (w : W E) → Step w (on_event E e w).1
    receives : (s : Subscriber) (raw : Json) (w : W E) → Step w (on_frame E s raw w).1
    moves : (c : E.xmpp.State) (w : W E) → Step w (record w { client = c })
    reconnects : (w : W E) → Step w (reconnect_step E w)
    expires : (w : W E) → w.idle_task ≡ counting → Step w (idle_expire E w).0
    closes : (w : W E) → Step w (close E w)

  pub data Reach (start : W E) : W E → Type 0 where
    here : Reach start start
    next : {v w : W E} → Reach start v → Step v w → Reach start w

  module _ (owner : String) where
    -- The invariant at whatever `_closing` is.
    abbrev pub Holds : W E → Type 0
    Holds w = (shut : Bool) × Inv E owner shut w

    pub Step-Holds : {v w : W E} → Step v w → Holds v → Holds w
    Step-Holds (attaches s w) (shut, h) = (shut, (attach-Inv E owner shut s).at w h)
    Step-Holds (detaches s w) (shut, h) = (shut, detach-Inv E owner shut s w h)
    Step-Holds (happens e w) (shut, h) = (shut, (on_event-Inv E owner shut e).at w h)
    Step-Holds (receives s raw w) (shut, h) = (shut, (on_frame-Inv E s owner shut raw).at w h)
    Step-Holds (moves c w) (shut, h) = (shut, client-Inv E owner shut c w h)
    Step-Holds (reconnects w) (shut, h) = (shut, reconnect_step-Inv E owner shut w h)
    Step-Holds (expires w e) (shut, h) = (true, idle_expire-closes E owner shut w h e)
    Step-Holds (closes w) (shut, h) = (true, close-Inv E owner shut w h)

    Step-shut : {v w : W E} → Step v w → Inv E owner true v → Inv E owner true w
    Step-shut (attaches s w) h = (attach-Inv E owner true s).at w h
    Step-shut (detaches s w) h = detach-Inv E owner true s w h
    Step-shut (happens e w) h = (on_event-Inv E owner true e).at w h
    Step-shut (receives s raw w) h = (on_frame-Inv E s owner true raw).at w h
    Step-shut (moves c w) h = client-Inv E owner true c w h
    Step-shut (reconnects w) h = reconnect_step-Inv E owner true w h
    Step-shut (expires w e) h = idle_expire-closes E owner true w h e
    Step-shut (closes w) h = close-Inv E owner true w h

    Reach-Holds : {v w : W E} → Reach v w → Holds v → Holds w
    Reach-Holds here h = h
    Reach-Holds (next r st) h = Step-Holds st (Reach-Holds r h)

    Reach-shut : {v w : W E} → Reach v w → Inv E owner true v → Inv E owner true w
    Reach-shut here h = h
    Reach-shut (next r st) h = Step-shut st (Reach-shut r h)

    pub init-Inv :
        (password : String) (c : E.xmpp.State) → Inv E owner false (init owner password c)
    unfolding init
    init-Inv password c = record {
      own = refl;
      phase = refl;
      distinct = tt;
      alone = λ e. refl;
      settled = λ e. refl;
      allowed = tt;
      presence_keys = tt;
      room_keys = tt;
      occupant_keys = tt;
    }

    -- After any history from a new account: its JID is unchanged, no tab is held twice, the idle
    -- countdown runs only while no tab is attached, no reconnect task is under way once it is
    -- closing, every joined room passes the allowlist, and its three dicts have each key once.
    pub Reach-Inv :
        (password : String) (c : E.xmpp.State) (w : W E)
        → Reach (init owner password c) w
        → Inv E owner w.closing w
    Reach-Inv password c w r =
        let (shut, h) = Reach-Holds r (false, init-Inv password c) in
        subst (λ b. Inv E owner b w) (sym h.phase) h

    -- An account that has begun to close stays so after any further history, tabs that attach
    -- included, and never again has a reconnect task under way.
    pub closing_forever :
        (v w : W E)
        → Inv E owner true v
        → Reach v w
        → (w.closing ≡ true) × (is_pending E w.reconnect_task ≡ false)
    closing_forever v w h r = let k = Reach-shut r h in (k.phase, k.settled refl)
