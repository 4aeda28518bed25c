-- ===== src/Xmpp/Connection/Outcome.antt =====
-- What it means that `connect` returns.
use pyconduit.Base.{String, Bool, true, false, ◌≡◌, refl, Bool-cases, inl, inr}
use pyconduit.Interface.{done, failed}
use pyconduit.Xmpp.Library.{Slixmpp, Letters}
use pyconduit.Xmpp.Client.{Failure, no_future, pending, set_exception, cancelled, S}
use pyconduit.Xmpp.Connection.{on_arrivals, begin_connect, connect, outcome_of}
use pyconduit.Xmpp.Connection.Waiting.{
  starts, fails, IsWaiting, on_arrivals-IsWaiting, on_arrivals-fails, on_arrivals-ready,
}

module _ (X : Slixmpp) (letters : Letters) where
  pub begin_connect-IsWaiting : (c : S X) → IsWaiting (begin_connect X letters c).0
  unfolding begin_connect
  begin_connect-IsWaiting c = record { waiting = refl; up = λ r. cc }

  outcome-ready :
      (f : Failure) (ready : Bool) → outcome_of X letters f ready ≡ done tt → ready ≡ true
  outcome-ready (set_exception text) ready h = absurd (cc)
  outcome-ready no_future true h = refl
  outcome-ready no_future false h = absurd (cc)
  outcome-ready pending true h = refl
  outcome-ready pending false h = absurd (cc)
  outcome-ready cancelled true h = refl
  outcome-ready cancelled false h = absurd (cc)

  outcome-failed :
      (f : Failure) (ready : Bool) (text : String)
      → f ≡ set_exception text
      → outcome_of X letters f ready ≡ failed text
  outcome-failed f ready text e = rw e refl

  -- `connect` returns only where a session started while it waited and nothing ended it, neither a
  -- refused password nor a disconnect, and then the client is connected.
  pub connect-done :
      (c : S X)
      → (connect X letters c).outcome ≡ done tt
      → (starts (X.start c.lib).1 ≡ true)
        × (fails (X.start c.lib).1 ≡ false)
        × ((connect X letters c).state.connected ≡ true)
  unfolding connect begin_connect
  connect-done c h =
      let arrivals = (X.start c.lib).1 in
      let c' = (begin_connect X letters c).0 in
      let w = begin_connect-IsWaiting c in
      let after = (on_arrivals X letters arrivals c').0 in
      let ready : after.session_ready ≡ true = outcome-ready after.session_failed _ h in
      let started : starts arrivals ≡ true = elim (Bool-cases (starts arrivals)) [
        | inl s ↦ s
        | inr never ↦ absurd (cc (ready, on_arrivals-ready X letters arrivals c' never))
      ] in
      elim (Bool-cases (fails arrivals)) [
        | inl bad ↦
            let (text, e) = on_arrivals-fails X letters arrivals c' bad w in
            absurd (cc (h, outcome-failed after.session_failed after.session_ready text e))
        | inr good ↦ (started, good, (on_arrivals-IsWaiting X letters arrivals c' good w).up ready)
      ]
