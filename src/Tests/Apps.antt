-- ===== src/Tests/Apps.antt =====
-- The application: a first socket, its response headers and its end; an account that its tab leaves.
use pyconduit.Base.{
  ℕ, String, string_eq, ◌==◌, true, false, Option, none, some, [], ◌∷◌, ◌≡◌, refl, All, arith,
}
use pyconduit.Base.Dict
use pyconduit.Base.Dict.{Dict}
use pyconduit.Auth.{extract_username, resolve}
use pyconduit.Headers.{lowered, lowered_from}
use pyconduit.Security.{client_ip, origin_allowed}
use pyconduit.Session.World.{
  W, Subscriber, subscriber_eq, counting, is_pending, log, discard, add, send, cancel_idle,
  start_idle_timer,
}
use pyconduit.Session.Account.{attach, detach, send_all, snapshot, ensure_connected}
use pyconduit.Session.Events.{connect, on_events}
use native.Mathlib.Decide.{ℕ_discrete}
use pyconduit.Session.Lifecycle.{idle_expire, reconnect_step}
use pyconduit.Session.History.{Holds, init, init-Inv, Step-Holds, attaches, reconnects}
use pyconduit.Session.Unattended.{begun, then_next, detach-closes}
use pyconduit.Session.Manager.{get_elem?, manager_attach, at_account, find_or_create}
use pyconduit.Socket.{handshake}
use pyconduit.Web.Sockets.{App, open_socket}
use pyconduit.Web.History.{started, here, next, opens}
use pyconduit.Web.Private.{IsUserOf}
use pyconduit.Web.Private.Reached.{Reach-private}
use pyconduit.Web.Responses.{Headers, security_headers, secured, or_else, IsHeaders, secured-All}
use pyconduit.Web.Shutdown.{stop, stop-closes}
use pyconduit.Tests.Fixtures.{env, start, alice}
use pyconduit.Tests.Frames.{mapper}
use pyconduit.Tests.Managers.{offline, idle_manager, idle_manager-IsRegistry}
use pyconduit.Tests.Sockets.{request}
use pyconduit.Tests.Logs.{broken_stdout, to_stdout, to_file}

abbrev first_tab : Subscriber
first_tab = record { username = "alice"; ip = "10.0.0.1"; id = 1 }

abbrev first_open : App env
first_open = open_socket env offline mapper request (started env offline mapper)

abbrev first_account : W env
first_account = (attach env first_tab (start env false)).1

Reach-private_example :
    All (IsUserOf env offline mapper first_account.jid) first_account.subscribers
    × All (λ e. IsUserOf env offline mapper first_account.jid e.0) first_account.sent
unfolding open_socket handshake extract_username resolve origin_allowed client_ip lowered
    lowered_from Dict.get Dict.put string_eq manager_attach init at_account find_or_create attach
    send_all snapshot send ensure_connected cancel_idle connect on_events
Reach-private_example =
    Reach-private env offline mapper first_open 0 first_account
      (next here (opens request (started env offline mapper))) refl

add_default : Option String → String → String → Dict String String → Dict String String
add_default (some old) name value d = d
add_default none name value d = (name, value) ∷ d

abbrev table : Headers
table = record {
  State = Dict String String;
  find = Dict.get;
  setdefault = λ name value d. add_default (Dict.get name d) name value d;
}

itself : (name : String) → (name == name) ≡ true
itself name = ground arith

table-own :
    (name value : String) (d : Dict String String)
    → Dict.get name (table.setdefault name value d) ≡ or_else table (Dict.get name d) (some value)
unfolding Dict.get add_default
table-own name value d = go (Dict.get name d) refl
  where
    go :
        (found : Option String)
        → Dict.get name d ≡ found
        → Dict.get name (table.setdefault name value d)
          ≡ or_else table (Dict.get name d) (some value)
    go (some old) e = rw e e
    go none e = rw (e, itself name) refl

table-other :
    (name other value : String) (d : Dict String String)
    → (other == name) ≡ false
    → Dict.get other (table.setdefault name value d) ≡ Dict.get other d
unfolding Dict.get add_default
table-other name other value d h = go (Dict.get name d) refl
  where
    go :
        (found : Option String)
        → Dict.get name d ≡ found
        → Dict.get other (table.setdefault name value d) ≡ Dict.get other d
    go (some old) e = rw e refl
    go none e = rw (e, h) refl

abbrev tables : IsHeaders table
tables = record { same = λ s t. t == s; find_own = table-own; find_other = table-other }

secured-All_example :
    All
      (λ e.
        Dict.get e.0 (secured table true (("X-Frame-Options", "SAMEORIGIN") ∷ []))
        ≡ or_else table (Dict.get e.0 (("X-Frame-Options", "SAMEORIGIN") ∷ [])) (some e.1))
      security_headers
    × ((name : String)
        → All (λ e. (name == e.0) ≡ false) security_headers
        → Dict.get name (secured table true (("X-Frame-Options", "SAMEORIGIN") ∷ []))
          ≡ Dict.get name (("X-Frame-Options", "SAMEORIGIN") ∷ []))
unfolding string_eq
secured-All_example = secured-All table tables (("X-Frame-Options", "SAMEORIGIN") ∷ []) (
  ((refl, refl), ((refl, refl), ((refl, refl), tt))),
  (((refl, refl), ((refl, refl), tt)), (((refl, refl), tt), (tt, tt))),
)

stop-closes_example :
    let m' =
      (stop env offline broken_stdout (to_stdout ∷ to_file ∷ []) (idle_manager env true) "").0 in
    (m'.accounts ≡ [])
    × ((jid : String) (i : ℕ)
        → Dict.get jid (idle_manager env true).accounts ≡ some i
        → (w : W env) × (get_elem? m'.heap i ≡ some w)
          × (w.closing ≡ true)
          × (is_pending env w.reconnect_task ≡ false))
stop-closes_example =
    stop-closes env offline broken_stdout (to_stdout ∷ to_file ∷ []) (idle_manager env true) ""
      (idle_manager-IsRegistry env true)

abbrev watched : W env
watched = (attach env alice (start env true)).1

watched-Holds : Holds env "alice@example" watched
watched-Holds =
    Step-Holds env "alice@example" (attaches alice (start env true))
      (false, init-Inv env "alice@example" "secret" true)

abbrev left : W env
left = detach env alice watched

detach-closes_example :
    ((reconnect_step env left).idle_task ≡ counting)
    × ((idle_expire env (reconnect_step env left)).0.closing ≡ true)
unfolding init detach log discard attach send_all snapshot send ensure_connected cancel_idle add
    subscriber_eq ℕ_discrete start_idle_timer
detach-closes_example =
    detach-closes env "alice@example" alice watched (reconnect_step env left) watched-Holds refl
      (then_next begun (reconnects left) tt)
