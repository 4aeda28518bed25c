-- ===== src/Xmpp/Roster.antt =====
-- src/pyconduit/xmpp/slixmpp_client.py: the roster, and subscriptions.
use pyconduit.Base.{String, string_eq, ◌==◌, Bool, if◌then◌else◌, List, [], ◌∷◌}
use pyconduit.Json.{Json, str, truthy}
use pyconduit.Interface.{Answer, done, failed, roster_snapshot, subscription_request, RosterItem}
use pyconduit.Xmpp.Library.{
  Slixmpp, IqResult, broke, RosterEntry, PresenceStanza, subscribed, unsubscribed, subscribe,
}
use pyconduit.Xmpp.Client.{
  Method, S, ◌>>=◌, ◌>>◌, pure, emit, call, transmit, bare_of, answer, or_text,
}

-- `except (IqError, IqTimeout): pass`
abbrev pub unless_broke : IqResult (Unit {0}) → Answer (Unit {0})
unless_broke (broke text) = failed text
unless_broke _ = done tt

-- The items of `_emit_roster`: the account's own address is left out.
unfoldable pub roster_items : String → List RosterEntry → List RosterItem
roster_items bare [] = []
roster_items bare (e ∷ es) =
    if e.jid == bare
    then roster_items bare es
    else record {
      jid = e.jid;
      name = or_text e.name e.jid;
      subscription = or_text e.subscription "none";
    }
      ∷ roster_items bare es

module _ (X : Slixmpp) where
  unfoldable pub emit_roster : Method (S X) (Unit {0})
  emit_roster c = emit (roster_snapshot (roster_items c.bare (X.client_roster c.lib))) c

  -- `name or bare`
  abbrev pub name_or : Json → String → Json
  name_or name bare = if truthy name then name else str bare

  unfoldable pub add_contact : Json → Json → Method (S X) (Unit {0})
  add_contact jid name = do
    bare ← bare_of X jid
    transmit X (X.transmit (subscribe bare))
    transmit X (X.update_roster bare (name_or name bare))
    emit_roster

  unfoldable pub remove_contact : Json → Method (S X) (Unit {0})
  remove_contact jid = do
    bare ← bare_of X jid
    r ← call X (X.del_roster_item bare)
    answer (unless_broke r)
    emit_roster

  -- `if accept:` the presence is asked for in turn.
  abbrev pub reciprocate : Bool → String → Method (S X) (Unit {0})
  reciprocate accept bare = if accept then transmit X (X.transmit (subscribe bare)) else pure tt

  unfoldable pub respond_subscription : Json → Bool → Method (S X) (Unit {0})
  respond_subscription jid accept = do
    bare ← bare_of X jid
    transmit X (X.transmit (if accept then subscribed bare else unsubscribed bare))
    reciprocate accept bare

  unfoldable pub on_subscribe : PresenceStanza → Method (S X) (Unit {0})
  on_subscribe p = emit (subscription_request p.sender.bare)

  unfoldable pub on_roster_update : Method (S X) (Unit {0})
  on_roster_update = emit_roster
