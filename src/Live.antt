-- ===== src/Live.antt =====
-- An account of src/pyconduit/session/account.py over the client of
-- src/pyconduit/xmpp/slixmpp_client.py: what arrives goes through both.
pub mod Contacts
pub mod Served
use pyconduit.Base.{String}
use pyconduit.Xmpp.Library.{Slixmpp, Letters, Arrival}
use pyconduit.Xmpp.Client.{S, new_client}
use pyconduit.Xmpp.Connection.{on_arrival, slixmpp_client}
use pyconduit.Session.World.{Env, W}
use pyconduit.Session.Events.{on_events}

module _ (X : Slixmpp) where
  -- `_default_client_factory` of the registry: `bare_of` is `JID(jid).bare`, `opened` the library's client.
  abbrev pub default_client_factory :
      (String → String) → (String → String → X.State) → String → String → S X
  default_client_factory bare_of opened jid password =
      new_client (bare_of jid) (opened jid password)

  module _ (letters : Letters) where
    -- The surroundings of an account, with this client.
    abbrev pub over : Env → Env
    over E = record E { xmpp = slixmpp_client X letters }

    -- The library calls a handler of the client, which calls `_on_event`.
    unfoldable pub arrives : (E : Env) → Arrival → W (over E) → W (over E)
    arrives E a w =
        let (c, es) = on_arrival X letters a w.client in
        on_events (over E) es (record w { client = c })
