-- ===== src/Xmpp/Connection.antt =====
-- src/pyconduit/xmpp/slixmpp_client.py: connecting, what arrives, and the client as the session
-- layer sees it.
pub mod Link
pub mod Waiting
pub mod Outcome
pub mod Returns
pub mod Stale
pub mod Requests
use pyconduit.Base.{
  String, string_eq, ◌==◌, Bool, true, false, if◌then◌else◌, List, [], ◌∷◌, ◌++◌, map, Option, none,
  some,
}
use pyconduit.Json.{Json, null}
use pyconduit.Interface.{
  Answer, done, failed, Reply, Notice, Event, connected, notice, XmppClient, disconnected as lost,
}
use pyconduit.Xmpp.Library.{
  Slixmpp, Letters, IqResult, returned, iq_failed, broke, Arrival, session_start, failed_auth,
  roster_update, disconnected, message, groupchat_message, presence_stanza, groupchat_presence,
  presence_subscribe, presence,
}
use pyconduit.Xmpp.Client.{
  Client, Failure, no_future, pending, set_exception, cancelled, Method, S, run, transmit, or_text,
}
use pyconduit.Xmpp.Presence.{on_presence, set_presence}
use pyconduit.Xmpp.Roster.{
  emit_roster, add_contact, remove_contact, respond_subscription, on_subscribe, on_roster_update,
}
use pyconduit.Xmpp.Messages.{send_message, on_message}
use pyconduit.Xmpp.Rooms.{
  join_room, leave_room, send_muc, on_groupchat_message, on_groupchat_presence, disco_rooms,
}
use pyconduit.Xmpp.History.{fetch_history}

module _ (X : Slixmpp) where
  -- Once the roster is there, or its request has failed: another exception ends the handler.
  abbrev pub session_started : IqResult (Unit {0}) → S X → S X × List Event
  session_started (broke text) c = (c, [])
  session_started _ c =
      let c' = record c { connected = true; session_ready = true } in
      let r = emit_roster X c' in (r.state, connected c.bare ∷ map notice r.events)

  unfoldable pub on_session_start : S X → S X × List Event
  on_session_start c =
      let (got, lib) = X.get_roster (X.transmit (presence null null) c.lib) in
      session_started got (record c { lib = lib })

  -- `set_exception`, unless the future is done or there is none.
  abbrev pub fail_session : String → Failure → Failure
  fail_session text pending = set_exception text
  fail_session text f = f

  unfoldable pub on_disconnected : String → S X → S X × List Event
  on_disconnected reason c = (
    record c {
      connected = false;
      session_failed = fail_session (or_text reason "disconnected") c.session_failed;
    },
    if c.connected then notice (lost reason) ∷ [] else [],
  )

  unfoldable pub on_failed_auth : S X → S X
  on_failed_auth c = record c {
    session_failed = fail_session "XMPP authentication failed" c.session_failed;
  }

  -- What a handler raises is the library's to log.
  abbrev pub heard : Reply Notice (S X) (Unit {0}) → S X × List Event
  heard r = (r.state, map notice r.events)

  module _ (letters : Letters) where
    -- The handlers of `add_event_handler`.
    unfoldable pub on_arrival : Arrival → S X → S X × List Event
    on_arrival session_start c = on_session_start c
    on_arrival failed_auth c = (on_failed_auth c, [])
    on_arrival (disconnected reason) c = on_disconnected reason c
    on_arrival roster_update c = heard (on_roster_update X c)
    on_arrival (message m) c = heard (on_message X m c)
    on_arrival (groupchat_message m) c = heard (on_groupchat_message X letters m c)
    on_arrival (presence_stanza p) c = heard (on_presence p c)
    on_arrival (groupchat_presence p) c = heard (on_groupchat_presence X p c)
    on_arrival (presence_subscribe p) c = heard (on_subscribe X p c)

    unfoldable pub on_arrivals : List Arrival → S X → S X × List Event
    on_arrivals [] c = (c, [])
    on_arrivals (a ∷ as') c =
        let (c', es) = on_arrival a c in let (c'', es') = on_arrivals as' c' in (c'', es ++ es')

    -- `connect`, up to its wait.
    unfoldable pub begin_connect : S X → S X × List Arrival
    begin_connect c =
        let (lib, arrivals) = X.start c.lib in
        (record c { session_ready = false; session_failed = pending; lib = lib }, arrivals)

    -- After the wait, which cancels what is pending.
    abbrev pub outcome_of : Failure → Bool → Answer (Unit {0})
    outcome_of (set_exception text) ready = failed text
    outcome_of f true = done tt
    outcome_of f false = failed "XMPP connection timed out"

    abbrev pub settle : Failure → Failure
    settle pending = cancelled
    settle f = f

    abbrev pub end_connect : S X × List Event → Reply Event (S X) (Unit {0})
    end_connect (c, es) = record {
      outcome = outcome_of c.session_failed c.session_ready;
      state = record c { session_failed = settle c.session_failed };
      events = es;
    }

    unfoldable pub connect : S X → Reply Event (S X) (Unit {0})
    connect c = let (c', arrivals) = begin_connect c in end_connect (on_arrivals arrivals c')

    unfoldable pub disconnect : Method (S X) (Unit {0})
    disconnect = run λ c. record c { connected = false; lib = X.stop c.lib }

    -- The client behind the interface. Its `disconnect` has no `await`, so it is never cancelled.
    abbrev pub slixmpp_client : XmppClient
    slixmpp_client = record {
      State = S X;
      is_connected = λ c. c.connected;
      connect = connect;
      disconnect = disconnect;
      disconnect_waits = λ c. false;
      disconnect_cancelled = λ c. c;
      send_message = send_message X;
      set_presence = set_presence X;
      fetch_history = fetch_history X;
      add_contact = add_contact X;
      remove_contact = remove_contact X;
      respond_subscription = respond_subscription X;
      join_room = join_room X;
      leave_room = leave_room X;
      send_muc = send_muc X;
      disco_rooms = disco_rooms X;
    }
