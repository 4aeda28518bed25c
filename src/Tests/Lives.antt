-- ===== src/Tests/Lives.antt =====
-- A tab of an account over a slixmpp client that has a session.
use pyconduit.Base.{true, false, [], ◌≡◌, ◌⊎◌, refl, ap, ◌∙◌}
use pyconduit.Xmpp.Library.{session_start}
use pyconduit.Xmpp.Client.{new_client}
use pyconduit.Session.World.{W, Env, is_pending, add, broadcast, send_to, log}
use pyconduit.Session.Events.{on_events, on_event, on_notice, on_notices, call, rejoin}
use pyconduit.Json.{json_eq}
use pyconduit.Xmpp.Connection.{on_arrival, on_session_start}
use pyconduit.Xmpp.Roster.{emit_roster}
use pyconduit.Xmpp.Presence.{set_presence}
use pyconduit.Session.History.{init}
use pyconduit.Session.Account.{attach}
use pyconduit.Session.Account.Snapshot.{attach-returns}
use pyconduit.Live.{over, arrives}
use pyconduit.Live.Served.{Step, here, next, never_stranded}
use pyconduit.Tests.Fixtures.{env, alice}
use pyconduit.Tests.Stanzas.{library, plain}

abbrev whole : Env
whole = over library plain env

abbrev made : W whole
made = init whole "alice@example" "secret" (new_client "alice@example" 0)

abbrev ready : W whole
ready = arrives library plain env session_start made

abbrev watched : W whole
watched = (attach whole alice ready).1

ready_up : (ready.client.connected ≡ true) × (ready.closing ≡ false) × (ready.subscribers ≡ [])
unfolding arrives on_events on_arrival on_session_start emit_roster on_event on_notice broadcast
    send_to call set_presence json_eq rejoin on_notices log init
ready_up = (refl, refl, refl)

watched_going : watched.closing ≡ false
watched_going =
    ap (λ r. r.1.closing) (attach-returns whole alice (λ sent frame. refl) ready ready_up.0)
    ∙ ready_up.1

watched_tabs : watched.subscribers ≡ add alice []
watched_tabs =
    ap (λ r. r.1.subscribers) (attach-returns whole alice (λ sent frame. refl) ready ready_up.0)
    ∙ ap (add alice) ready_up.2

never_stranded_example :
    (watched.client.connected ≡ true) ⊎ (is_pending whole watched.reconnect_task ≡ true)
unfolding add
never_stranded_example =
    never_stranded library plain env "alice@example" "secret" 0 watched
      (next (next here (Step.hears session_start made)) (Step.attaches alice ready)) watched_going
      (λ e. cc (watched_tabs, e))
