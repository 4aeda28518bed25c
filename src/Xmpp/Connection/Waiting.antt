-- ===== src/Xmpp/Connection/Waiting.antt =====
-- What the arrivals do to a session that `connect` waits for.
use pyconduit.Base.{
  String, Bool, true, false, List, [], ◌∷◌, ◌≡◌, refl, sym, ap, ◌∙◌, arith, Bool-cases, inl, inr,
  ◌||◌,
}
use pyconduit.Json.{null}
use pyconduit.Xmpp.Library.{
  Slixmpp, Letters, IqResult, returned, iq_failed, broke, Arrival, session_start, failed_auth,
  roster_update, disconnected, message, groupchat_message, presence_stanza, groupchat_presence,
  presence_subscribe, presence,
}
use pyconduit.Xmpp.Client.{Client, pending, set_exception, S}
use pyconduit.Xmpp.Roster.{emit_roster}
use pyconduit.Xmpp.Connection.{
  session_started, on_session_start, fail_session, on_disconnected, on_failed_auth, on_arrival,
  on_arrivals,
}
use pyconduit.Xmpp.Connection.Link.{
  link, on_presence-IsQuiet, on_roster_update-IsQuiet, on_subscribe-IsQuiet, on_message-IsQuiet,
  on_groupchat_message-IsQuiet, on_groupchat_presence-IsQuiet,
}

-- Whether a session starts among what arrives, and whether something ends it.
abbrev pub starts : List Arrival → Bool
starts [] = false
starts (session_start ∷ as') = true
starts (_ ∷ as') = starts as'

abbrev pub fails : List Arrival → Bool
fails [] = false
fails (failed_auth ∷ as') = true
fails (disconnected _ ∷ as') = true
fails (_ ∷ as') = fails as'

-- While `connect` waits: nothing has failed, and a session that is ready is connected.
pub record IsWaiting {L : Type 0} (c : Client L) : Type 0 where
  pub waiting : c.session_failed ≡ pending
  pub up : c.session_ready ≡ true → c.connected ≡ true

link-IsWaiting : {L : Type 0} (c c' : Client L) → link c' ≡ link c → IsWaiting c → IsWaiting c'
link-IsWaiting c c' e w = record {
  waiting = ap (λ l. l.2) e ∙ w.waiting;
  up = λ r. ap (λ l. l.0) e ∙ w.up (sym (ap (λ l. l.1) e) ∙ r);
}

module _ (X : Slixmpp) (letters : Letters) where
  session_started-IsWaiting :
      (got : IqResult (Unit {0})) (c : S X) → IsWaiting c → IsWaiting (session_started X got c).0
  unfolding emit_roster
  session_started-IsWaiting (broke text) c w = w
  session_started-IsWaiting (returned _) c w = record { waiting = w.waiting; up = λ r. refl }
  session_started-IsWaiting iq_failed c w = record { waiting = w.waiting; up = λ r. refl }

  on_session_start-IsWaiting : (c : S X) → IsWaiting c → IsWaiting (on_session_start X c).0
  unfolding on_session_start
  on_session_start-IsWaiting c w =
      let answered = X.get_roster (X.transmit (presence null null) c.lib) in
      session_started-IsWaiting answered.0 (record c { lib = answered.1 })
        (record { waiting = w.waiting; up = w.up })

  -- One arrival that fails nothing.
  on_arrival-IsWaiting :
      (a : Arrival) (c : S X)
      → fails (a ∷ []) ≡ false
      → IsWaiting c
      → IsWaiting (on_arrival X letters a c).0
  unfolding on_arrival
  on_arrival-IsWaiting session_start c h w = on_session_start-IsWaiting c w
  on_arrival-IsWaiting failed_auth c h w = absurd (cc)
  on_arrival-IsWaiting (disconnected reason) c h w = absurd (cc)
  on_arrival-IsWaiting roster_update c h w =
      link-IsWaiting c _ ((on_roster_update-IsQuiet X).at c) w
  on_arrival-IsWaiting (message m) c h w = link-IsWaiting c _ ((on_message-IsQuiet X m).at c) w
  on_arrival-IsWaiting (groupchat_message m) c h w =
      link-IsWaiting c _ ((on_groupchat_message-IsQuiet X letters m).at c) w
  on_arrival-IsWaiting (presence_stanza p) c h w =
      link-IsWaiting c _ ((on_presence-IsQuiet p).at c) w
  on_arrival-IsWaiting (groupchat_presence p) c h w =
      link-IsWaiting c _ ((on_groupchat_presence-IsQuiet X p).at c) w
  on_arrival-IsWaiting (presence_subscribe p) c h w =
      link-IsWaiting c _ ((on_subscribe-IsQuiet X p).at c) w

  session_started-failed :
      (got : IqResult (Unit {0})) (c : S X)
      → (session_started X got c).0.session_failed ≡ c.session_failed
  unfolding emit_roster
  session_started-failed (broke text) c = refl
  session_started-failed (returned _) c = refl
  session_started-failed iq_failed c = refl

  -- A failure is never taken back.
  on_arrival-failed :
      (a : Arrival) (c : S X) (text : String)
      → c.session_failed ≡ set_exception text
      → (on_arrival X letters a c).0.session_failed ≡ set_exception text
  unfolding on_arrival on_session_start on_failed_auth on_disconnected
  on_arrival-failed session_start c text e = session_started-failed _ _ ∙ e
  on_arrival-failed failed_auth c text e = ap (fail_session X "XMPP authentication failed") e
  on_arrival-failed (disconnected reason) c text e = ap (fail_session X _) e
  on_arrival-failed roster_update c text e = ap (λ l. l.2) ((on_roster_update-IsQuiet X).at c) ∙ e
  on_arrival-failed (message m) c text e = ap (λ l. l.2) ((on_message-IsQuiet X m).at c) ∙ e
  on_arrival-failed (groupchat_message m) c text e =
      ap (λ l. l.2) ((on_groupchat_message-IsQuiet X letters m).at c) ∙ e
  on_arrival-failed (presence_stanza p) c text e = ap (λ l. l.2) ((on_presence-IsQuiet p).at c) ∙ e
  on_arrival-failed (groupchat_presence p) c text e =
      ap (λ l. l.2) ((on_groupchat_presence-IsQuiet X p).at c) ∙ e
  on_arrival-failed (presence_subscribe p) c text e =
      ap (λ l. l.2) ((on_subscribe-IsQuiet X p).at c) ∙ e

  on_arrivals-failed :
      (as' : List Arrival) (c : S X) (text : String)
      → c.session_failed ≡ set_exception text
      → (on_arrivals X letters as' c).0.session_failed ≡ set_exception text
  unfolding on_arrivals
  on_arrivals-failed [] c text e = e
  on_arrivals-failed (a ∷ as') c text e =
      on_arrivals-failed as' _ text (on_arrival-failed a c text e)

  -- One arrival that fails the session.
  on_arrival-fails :
      (a : Arrival) (c : S X)
      → c.session_failed ≡ pending
      → fails (a ∷ []) ≡ true
      → (text : String) × ((on_arrival X letters a c).0.session_failed ≡ set_exception text)
  unfolding on_arrival on_failed_auth on_disconnected
  on_arrival-fails failed_auth c e h = (_, ap (fail_session X "XMPP authentication failed") e)
  on_arrival-fails (disconnected reason) c e h = (_, ap (fail_session X _) e)
  on_arrival-fails session_start c e h = absurd (cc)
  on_arrival-fails _ c e h = absurd (cc)

  on_arrival-ready :
      (a : Arrival) (c : S X)
      → starts (a ∷ []) ≡ false
      → (on_arrival X letters a c).0.session_ready ≡ c.session_ready
  unfolding on_arrival on_failed_auth on_disconnected
  on_arrival-ready session_start c h = absurd (cc)
  on_arrival-ready failed_auth c h = refl
  on_arrival-ready (disconnected reason) c h = refl
  on_arrival-ready roster_update c h = ap (λ l. l.1) ((on_roster_update-IsQuiet X).at c)
  on_arrival-ready (message m) c h = ap (λ l. l.1) ((on_message-IsQuiet X m).at c)
  on_arrival-ready (groupchat_message m) c h =
      ap (λ l. l.1) ((on_groupchat_message-IsQuiet X letters m).at c)
  on_arrival-ready (presence_stanza p) c h = ap (λ l. l.1) ((on_presence-IsQuiet p).at c)
  on_arrival-ready (groupchat_presence p) c h =
      ap (λ l. l.1) ((on_groupchat_presence-IsQuiet X p).at c)
  on_arrival-ready (presence_subscribe p) c h = ap (λ l. l.1) ((on_subscribe-IsQuiet X p).at c)

  fails-cons : (a : Arrival) (as' : List Arrival) → fails (a ∷ as') ≡ (fails (a ∷ []) || fails as')
  fails-cons failed_auth as' = refl
  fails-cons (disconnected _) as' = refl
  fails-cons session_start as' = refl
  fails-cons _ as' = refl

  pub starts-cons :
      (a : Arrival) (as' : List Arrival) → starts (a ∷ as') ≡ (starts (a ∷ []) || starts as')
  starts-cons session_start as' = refl
  starts-cons failed_auth as' = refl
  starts-cons _ as' = refl

  pub on_arrivals-ready :
      (as' : List Arrival) (c : S X)
      → starts as' ≡ false
      → (on_arrivals X letters as' c).0.session_ready ≡ c.session_ready
  unfolding on_arrivals
  on_arrivals-ready [] c h = refl
  on_arrivals-ready (a ∷ as') c h =
      on_arrivals-ready as' _ (ground (arith, starts-cons a as'))
      ∙ on_arrival-ready a c (ground (arith, starts-cons a as'))

  -- A wait without a failure stays one; after a failure the exception is set.
  pub on_arrivals-IsWaiting :
      (as' : List Arrival) (c : S X)
      → fails as' ≡ false
      → IsWaiting c
      → IsWaiting (on_arrivals X letters as' c).0
  unfolding on_arrivals
  on_arrivals-IsWaiting [] c h w = w
  on_arrivals-IsWaiting (a ∷ as') c h w =
      on_arrivals-IsWaiting as' _ (ground (arith, fails-cons a as'))
        (on_arrival-IsWaiting a c (ground (arith, fails-cons a as')) w)

  pub on_arrivals-fails :
      (as' : List Arrival) (c : S X)
      → fails as' ≡ true
      → IsWaiting c
      → (text : String) × ((on_arrivals X letters as' c).0.session_failed ≡ set_exception text)
  unfolding on_arrivals
  on_arrivals-fails [] c h w = absurd (cc)
  on_arrivals-fails (a ∷ as') c h w = elim (Bool-cases (fails (a ∷ []))) [
    | inl now ↦
        let (text, e) = on_arrival-fails a c w.waiting now in
        (text, on_arrivals-failed as' _ text e)
    | inr later ↦
        on_arrivals-fails as' _ (ground (arith, fails-cons a as'))
          (on_arrival-IsWaiting a c later w)
  ]
