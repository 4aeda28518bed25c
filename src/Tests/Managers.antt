-- ===== src/Tests/Managers.antt =====
-- The registry of accounts.
use pyconduit.Base.{ℕ, String, Bool, true, false, string_eq, ◌≡◌, refl, none, some, [], ◌∷◌, arith}
use pyconduit.Base.Dict
use pyconduit.Session.World.{Env, W, counting}
use pyconduit.Session.History.{Holds, init}
use pyconduit.Session.Manager.{AccountManager, get_elem?, manager_attach, manager_idle}
use pyconduit.Session.Manager.Registry.{
  IsRegistry, manager_attach-shares, manager_attach-IsRegistry,
}
use pyconduit.Session.Manager.Expiry.{manager_idle-forgets}
use pyconduit.Tests.Fixtures.{env, start, alice, bob}

abbrev pub offline : String → String → Bool
offline jid password = false

abbrev pub no_accounts : AccountManager env
no_accounts = record { heap = []; accounts = [] }

pub no_accounts-IsRegistry : IsRegistry env no_accounts
unfolding Dict.get
no_accounts-IsRegistry = record { keys = tt; sound = λ jid i e. cc }

manager_attach-IsRegistry_example :
    IsRegistry env (manager_attach env offline "alice@example" "secret" alice no_accounts).1
manager_attach-IsRegistry_example =
    manager_attach-IsRegistry env offline "alice@example" "secret" alice no_accounts
      no_accounts-IsRegistry

manager_attach-shares_example :
    let first = manager_attach env offline "alice@example" "secret" alice no_accounts in
    ((manager_attach env offline "alice@example" "other" bob first.1).0.0 ≡ first.0.0)
    × ((manager_attach env offline "alice@example" "other" bob first.1).1.accounts
        ≡ first.1.accounts)
manager_attach-shares_example =
    manager_attach-shares env offline "alice@example" "secret" "other" alice bob no_accounts

abbrev idle_world : (E : Env) → E.xmpp.State → W E
idle_world E c = record (start E c) { idle_task = counting }

abbrev pub idle_manager : (E : Env) → E.xmpp.State → AccountManager E
idle_manager E c = record { heap = idle_world E c ∷ []; accounts = ("alice@example", 0) ∷ [] }

idle-Holds : (E : Env) (c : E.xmpp.State) → Holds E "alice@example" (idle_world E c)
unfolding init
idle-Holds E c = (
  false,
  record {
    own = refl;
    phase = refl;
    distinct = tt;
    alone = λ e. refl;
    settled = λ e. refl;
    allowed = tt;
    presence_keys = tt;
    room_keys = tt;
    occupant_keys = tt;
  },
)

only_alice :
    (jid : String) (i : ℕ)
    → Dict.get jid (("alice@example", 0) ∷ []) ≡ some i
    → (jid ≡ "alice@example") × (i ≡ 0)
unfolding Dict.get
only_alice jid i e = ground arith

pub idle_manager-IsRegistry : (E : Env) (c : E.xmpp.State) → IsRegistry E (idle_manager E c)
unfolding Dict.get
idle_manager-IsRegistry E c = record {
  keys = (refl, tt);
  sound = λ jid i e.
      let (same, at_0) = only_alice jid i e in
      (idle_world E c, rw at_0 refl, rw same (idle-Holds E c));
}

manager_idle-forgets_example :
    let m' = manager_idle env offline 0 (idle_manager env true) in
    ((w' : W env) × (get_elem? m'.heap 0 ≡ some w') × (w'.closing ≡ true))
    × (Dict.get "alice@example" m'.accounts ≡ none)
unfolding Dict.get string_eq
manager_idle-forgets_example =
    manager_idle-forgets env offline "alice@example" "alice@example" 0 (idle_manager env true)
      (idle_world env true) (idle_manager-IsRegistry env true) refl refl refl refl
