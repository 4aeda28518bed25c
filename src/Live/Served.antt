-- ===== src/Live/Served.antt =====
-- Whether an account of src/pyconduit/session/account.py over the client of
-- src/pyconduit/xmpp/slixmpp_client.py is connected or about to be, through all that can happen to both.
use pyconduit.Base.{
  String, true, false, is_empty, List, [], ◌∷◌, ◌≡◌, ◌≢◌, ◌⊎◌, refl, ap, ◌∙◌, Bool-cases, inl, inr,
  arith,
}
use pyconduit.Json.{Json}
use pyconduit.Interface.{Event}
use pyconduit.Xmpp.Library.{
  Slixmpp, Letters, IqResult, returned, iq_failed, broke, Arrival, session_start, failed_auth,
  roster_update, disconnected, message, groupchat_message, presence_stanza, groupchat_presence,
  presence_subscribe,
}
use pyconduit.Xmpp.Client.{S, new_client}
use pyconduit.Xmpp.Roster.{emit_roster}
use pyconduit.Xmpp.Connection.{
  on_arrival, session_started, on_session_start, on_disconnected, on_failed_auth,
}
use pyconduit.Xmpp.Connection.Link.{
  link, on_presence-IsQuiet, on_roster_update-IsQuiet, on_subscribe-IsQuiet, on_message-IsQuiet,
  on_groupchat_message-IsQuiet, on_groupchat_presence-IsQuiet,
}
use pyconduit.Xmpp.Connection.Outcome.{connect-done}
use pyconduit.Xmpp.Connection.Requests.{request-link}
use pyconduit.Session.World.{Env, W, Subscriber, counting, is_pending}
use pyconduit.Session.Events.{on_events, on_event}
use pyconduit.Session.Account.{attach, detach}
use pyconduit.Session.Lifecycle.{reconnect_step, idle_expire, close}
use pyconduit.Session.History.{init}
use pyconduit.Session.Served.{IsServed, IsSteady, lost-serves}
use pyconduit.Session.Served.Steps.{
  attach-IsServed, detach-IsServed, on_frame-IsServed, reconnect_step-IsServed,
  idle_expire-IsServed, close-IsServed, on_events-IsServed,
}
use pyconduit.Socket.Pump.{on_frame}
use pyconduit.Live.{over, arrives}

is_empty-false : {A : Type 0} (xs : List A) → xs ≢ [] → is_empty xs ≡ false
is_empty-false [] h = absurd (h refl)
is_empty-false (x ∷ xs) h = refl

module _ (X : Slixmpp) (letters : Letters) (E : Env) where
  abbrev Whole : Env
  Whole = over X letters E

  -- What happens to an account and its client: tabs come, send frames and go, stanzas arrive, and
  -- the account's two tasks take their steps.
  pub data Step : W Whole → W Whole → Type 0 where
    attaches : (s : Subscriber) (w : W Whole) → Step w (attach Whole s w).1
    detaches : (s : Subscriber) (w : W Whole) → Step w (detach Whole s w)
    receives : (s : Subscriber) (raw : Json) (w : W Whole) → Step w (on_frame Whole s raw w).1
    hears : (a : Arrival) (w : W Whole) → Step w (arrives X letters E a w)
    reconnects : (w : W Whole) → Step w (reconnect_step Whole w)
    expires : (w : W Whole) → w.idle_task ≡ counting → Step w (idle_expire Whole w).0
    closes : (w : W Whole) → Step w (close Whole w)

  pub data Reach (start : W Whole) : W Whole → Type 0 where
    here : Reach start start
    next : {v w : W Whole} → Reach start v → Step v w → Reach start w

  slixmpp_client-IsSteady : IsSteady Whole
  slixmpp_client-IsSteady = record {
    requests = λ asked c. ap (λ l. l.0) (request-link X letters E asked c);
    connects = λ c e. (connect-done X letters c e).2;
  }

  session_started-up :
      (got : IqResult (Unit {0})) (c : S X)
      → c.connected ≡ true
      → (session_started X got c).0.connected ≡ true
  unfolding emit_roster
  session_started-up (broke text) c h = h
  session_started-up (returned _) c h = refl
  session_started-up iq_failed c h = refl

  -- The client is as connected as it was, or more, when the events are handled.
  risen-IsServed :
      (r : S X × List Event) (w : W Whole)
      → (w.client.connected ≡ true → r.0.connected ≡ true)
      → IsServed Whole w
      → IsServed Whole (on_events Whole r.1 (record w { client = r.0 }))
  risen-IsServed r w up h =
      on_events-IsServed Whole slixmpp_client-IsSteady r.1 (record w { client = r.0 })
        (record {
          at = elim (Bool-cases w.client.connected) [
            | inl was ↦ ground (arith, up was)
            | inr not_yet ↦ ground (arith, h.at)
          ];
        })

  lost-IsServed :
      (reason : String) (w : W Whole)
      → IsServed Whole w
      → IsServed Whole (arrives X letters E (disconnected reason) w)
  unfolding arrives on_arrival on_disconnected on_events on_event
  lost-IsServed reason w h = elim (Bool-cases w.client.connected) [
    | inl was ↦ rw was (lost-serves Whole reason _)
    | inr never ↦ rw never (record { at = ground (arith, h.at) })
  ]

  heard-IsServed :
      (a : Arrival) (w : W Whole)
      → link (on_arrival X letters a w.client).0 ≡ link w.client
      → IsServed Whole w
      → IsServed Whole (arrives X letters E a w)
  unfolding arrives
  heard-IsServed a w same h =
      risen-IsServed (on_arrival X letters a w.client) w (λ up. ap (λ l. l.0) same ∙ up) h

  arrives-IsServed :
      (a : Arrival) (w : W Whole) → IsServed Whole w → IsServed Whole (arrives X letters E a w)
  unfolding arrives on_arrival on_session_start on_failed_auth
  arrives-IsServed session_start w h =
      risen-IsServed (on_session_start X w.client) w
        (session_started-up _ (record w.client { lib = _ })) h
  arrives-IsServed failed_auth w h = risen-IsServed (on_failed_auth X w.client, []) w (λ up. up) h
  arrives-IsServed (disconnected reason) w h = lost-IsServed reason w h
  arrives-IsServed roster_update w h =
      heard-IsServed roster_update w ((on_roster_update-IsQuiet X).at w.client) h
  arrives-IsServed (message m) w h =
      heard-IsServed (message m) w ((on_message-IsQuiet X m).at w.client) h
  arrives-IsServed (groupchat_message m) w h =
      heard-IsServed (groupchat_message m) w
        ((on_groupchat_message-IsQuiet X letters m).at w.client) h
  arrives-IsServed (presence_stanza p) w h =
      heard-IsServed (presence_stanza p) w ((on_presence-IsQuiet p).at w.client) h
  arrives-IsServed (groupchat_presence p) w h =
      heard-IsServed (groupchat_presence p) w ((on_groupchat_presence-IsQuiet X p).at w.client) h
  arrives-IsServed (presence_subscribe p) w h =
      heard-IsServed (presence_subscribe p) w ((on_subscribe-IsQuiet X p).at w.client) h

  Step-IsServed : {v w : W Whole} → Step v w → IsServed Whole v → IsServed Whole w
  Step-IsServed (attaches s w) h = attach-IsServed Whole slixmpp_client-IsSteady s w
  Step-IsServed (detaches s w) h = detach-IsServed Whole slixmpp_client-IsSteady s w h
  Step-IsServed (receives s raw w) h =
      (on_frame-IsServed Whole slixmpp_client-IsSteady s raw).at w h
  Step-IsServed (hears a w) h = arrives-IsServed a w h
  Step-IsServed (reconnects w) h = reconnect_step-IsServed Whole slixmpp_client-IsSteady w h
  Step-IsServed (expires w e) h = idle_expire-IsServed Whole slixmpp_client-IsSteady w h
  Step-IsServed (closes w) h = close-IsServed Whole slixmpp_client-IsSteady w

  Reach-Served : {v w : W Whole} → Reach v w → IsServed Whole v → IsServed Whole w
  Reach-Served here h = h
  Reach-Served (next r step) h = Step-IsServed step (Reach-Served r h)

  -- Whatever has happened to an account over the slixmpp client since it was made, tabs that come, send
  -- frames and go, whatever arrives, a lost connection included, and the steps of its tasks: if it
  -- has a tab and is not closing, its client is connected, or a reconnect task is under way.
  pub never_stranded :
      (owner password : String) (lib : X.State) (w : W Whole)
      → Reach (init Whole owner password (new_client owner lib)) w
      → w.closing ≡ false
      → w.subscribers ≢ []
      → (w.client.connected ≡ true) ⊎ (is_pending Whole w.reconnect_task ≡ true)
  unfolding init
  never_stranded owner password lib w r going tabs =
      let safe = (Reach-Served r (record { at = refl })).at in
      let attended = is_empty-false w.subscribers tabs in
      elim (Bool-cases w.client.connected) [
        | inl up ↦ inl up
        | inr down ↦ inr (ground (arith, safe, attended))
      ]
