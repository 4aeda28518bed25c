-- ===== src/Xmpp/Connection/Returns.antt =====
-- When `connect` returns.
use pyconduit.Base.{String, Bool, true, false, List, [], ◌∷◌, ◌≡◌, ◌≢◌, ◌↔◌, refl, ap, ◌∙◌, arith}
use pyconduit.Json.{null}
use pyconduit.Interface.{done}
use pyconduit.Xmpp.Library.{
  Slixmpp, Letters, IqResult, returned, iq_failed, broke, Arrival, session_start, failed_auth,
  roster_update, disconnected, message, groupchat_message, presence_stanza, groupchat_presence,
  presence_subscribe, presence,
}
use pyconduit.Xmpp.Client.{Failure, pending, S}
use pyconduit.Xmpp.Roster.{emit_roster}
use pyconduit.Xmpp.Connection.{
  session_started, on_session_start, on_disconnected, on_failed_auth, on_arrival, on_arrivals,
  begin_connect, connect, outcome_of,
}
use pyconduit.Xmpp.Connection.Link.{
  on_presence-IsQuiet, on_roster_update-IsQuiet, on_subscribe-IsQuiet, on_message-IsQuiet,
  on_groupchat_message-IsQuiet, on_groupchat_presence-IsQuiet,
}
use pyconduit.Xmpp.Connection.Waiting.{starts, fails, starts-cons, on_arrivals-IsWaiting}
use pyconduit.Xmpp.Connection.Outcome.{begin_connect-IsWaiting, connect-done}

module _ (X : Slixmpp) (letters : Letters) where
  session_started-ready :
      (got : IqResult (Unit {0})) (c : S X)
      → c.session_ready ≡ true
      → (session_started X got c).0.session_ready ≡ true
  unfolding emit_roster
  session_started-ready (broke text) c h = h
  session_started-ready (returned _) c h = refl
  session_started-ready iq_failed c h = refl

  session_started-makes_ready :
      (got : IqResult (Unit {0})) (c : S X)
      → ((text : String) → got ≢ broke text)
      → (session_started X got c).0.session_ready ≡ true
  unfolding emit_roster
  session_started-makes_ready (broke text) c h = absurd (h text refl)
  session_started-makes_ready (returned _) c h = refl
  session_started-makes_ready iq_failed c h = refl

  -- A session that is ready stays so while `connect` waits.
  on_arrival-stays :
      (a : Arrival) (c : S X)
      → c.session_ready ≡ true
      → (on_arrival X letters a c).0.session_ready ≡ true
  unfolding on_arrival on_session_start on_failed_auth on_disconnected
  on_arrival-stays session_start c h = session_started-ready _ (record c { lib = _ }) h
  on_arrival-stays failed_auth c h = h
  on_arrival-stays (disconnected reason) c h = h
  on_arrival-stays roster_update c h = ap (λ l. l.1) ((on_roster_update-IsQuiet X).at c) ∙ h
  on_arrival-stays (message m) c h = ap (λ l. l.1) ((on_message-IsQuiet X m).at c) ∙ h
  on_arrival-stays (groupchat_message m) c h =
      ap (λ l. l.1) ((on_groupchat_message-IsQuiet X letters m).at c) ∙ h
  on_arrival-stays (presence_stanza p) c h = ap (λ l. l.1) ((on_presence-IsQuiet p).at c) ∙ h
  on_arrival-stays (groupchat_presence p) c h =
      ap (λ l. l.1) ((on_groupchat_presence-IsQuiet X p).at c) ∙ h
  on_arrival-stays (presence_subscribe p) c h = ap (λ l. l.1) ((on_subscribe-IsQuiet X p).at c) ∙ h

  on_arrivals-stays :
      (as' : List Arrival) (c : S X)
      → c.session_ready ≡ true
      → (on_arrivals X letters as' c).0.session_ready ≡ true
  unfolding on_arrivals
  on_arrivals-stays [] c h = h
  on_arrivals-stays (a ∷ as') c h = on_arrivals-stays as' _ (on_arrival-stays a c h)

  module _ (answers : (lib : X.State) (text : String) → (X.get_roster lib).0 ≢ broke text) where
    on_session_start-ready : (c : S X) → (on_session_start X c).0.session_ready ≡ true
    unfolding on_session_start
    on_session_start-ready c =
        session_started-makes_ready _ (record c { lib = _ })
          (answers (X.transmit (presence null null) c.lib))

    on_arrivals-starts :
        (as' : List Arrival) (c : S X)
        → starts as' ≡ true
        → (on_arrivals X letters as' c).0.session_ready ≡ true
    unfolding on_arrivals on_arrival
    on_arrivals-starts [] c h = absurd (cc)
    on_arrivals-starts (session_start ∷ as') c h =
        on_arrivals-stays as' _ (on_session_start-ready c)
    on_arrivals-starts (failed_auth ∷ as') c h = on_arrivals-starts as' _ h
    on_arrivals-starts (a ∷ as') c h =
        on_arrivals-starts as' _ (ground (arith, starts-cons X letters a as'))

    outcome-done :
        (f : Failure) (ready : Bool)
        → f ≡ pending
        → ready ≡ true
        → outcome_of X letters f ready ≡ done tt
    outcome-done f ready e r = rw (e, r) refl

    -- Where the roster request breaks no handler, `connect` returns exactly when a session starts
    -- while it waits and nothing ends it, neither a refused password nor a disconnect; the client
    -- is then connected.
    pub connect-done_iff :
        (c : S X)
        → (((connect X letters c).outcome ≡ done tt)
            ↔ ((starts (X.start c.lib).1 ≡ true) × (fails (X.start c.lib).1 ≡ false)))
          × ((connect X letters c).outcome ≡ done tt → (connect X letters c).state.connected ≡ true)
    unfolding connect begin_connect
    connect-done_iff c = (
      (
        λ h. let (started, good, _) = connect-done X letters c h in (started, good),
        λ both.
            let c' = (begin_connect X letters c).0 in
            outcome-done _ _
              (on_arrivals-IsWaiting X letters _ c' both.1
                (begin_connect-IsWaiting X letters c)).waiting
              (on_arrivals-starts _ c' both.0),
      ),
      λ h. let (_, _, up) = connect-done X letters c h in up,
    )
