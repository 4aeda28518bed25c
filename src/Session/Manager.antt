-- ===== src/Session/Manager.antt =====
-- src/pyconduit/session/manager.py. Accounts are objects: the heap holds them, and the registry
-- `_accounts` holds their addresses. The lock is never held across a wait.
pub mod Registry
pub mod Expiry
use pyconduit.Base.{
  ℕ, zero, suc, String, string_eq, nat_eq, ◌==◌, Bool, true, false, List, [], ◌∷◌, ◌++◌, is_empty,
  length, if◌then◌else◌, Option, none, some, ◌&&◌,
}
use pyconduit.Base.Dict
use pyconduit.Base.Dict.{Dict}
use pyconduit.Errors.{Result, ok, raise}
use pyconduit.Session.World.{Env, World, W, Subscriber}
use pyconduit.Session.Account.{attach, detach}
use pyconduit.Session.Lifecycle.{idle_expire, close}
use pyconduit.Session.History.{init}

module _ {ℓ} {A : Type ℓ} where
  abbrev pub get_elem? : List A → ℕ → Option A
  get_elem? [] i = none
  get_elem? (x ∷ xs) zero = some x
  get_elem? (x ∷ xs) (suc i) = get_elem? xs i

  -- A write out of bounds changes nothing.
  abbrev pub set : List A → ℕ → A → List A
  set [] i v = []
  set (x ∷ xs) zero v = v ∷ xs
  set (x ∷ xs) (suc i) v = x ∷ set xs i v

pub record AccountManager (E : Env) : Type 0 where
  pub heap : List (W E)
  pub accounts : Dict String ℕ

-- `new_client` is what the client factory makes of a JID and a password.
module _ (E : Env) (new_client : String → String → E.xmpp.State) where
  -- The part of `attach` under the lock: the account's address.
  unfoldable pub find_or_create : String → String → AccountManager E → ℕ × AccountManager E
  find_or_create jid password m = elim (Dict.get jid m.accounts) [
    | some i ↦ (i, m)
    | none ↦ (
      length m.heap,
      record {
        heap = m.heap ++ init E jid password (new_client jid password) ∷ [];
        accounts = Dict.put jid (length m.heap) m.accounts;
      },
    )
  ]

  -- Runs a coroutine of the account at an address.
  unfoldable pub at_account :
      {A : Type 0} → ℕ → A → (W E → A × W E) → AccountManager E → A × AccountManager E
  at_account i missing f m = elim (get_elem? m.heap i) [
    | none ↦ (missing, m)
    | some w ↦ let (a, w') = f w in (a, record m { heap = set m.heap i w' })
  ]

  unfoldable pub manager_attach :
      String → String → Subscriber → AccountManager E → (ℕ × Result (Unit {0})) × AccountManager E
  manager_attach jid password sub m =
      let (i, m') = find_or_create jid password m in
      let (r, m'') = at_account i (ok tt) (attach E sub) m' in ((i, r), m'')

  unfoldable pub manager_detach : ℕ → Subscriber → AccountManager E → AccountManager E
  manager_detach i sub m = (at_account i tt (λ w. (tt, detach E sub w)) m).1

  -- `_on_idle_expired`
  abbrev pub drop_if_idle : ℕ → Option (W E) → AccountManager E → AccountManager E
  drop_if_idle i none m = m
  drop_if_idle i (some w) m = elim (Dict.get w.jid m.accounts) [
    | none ↦ m
    | some j ↦
        if is_empty w.subscribers && (j == i)
        then record m { accounts = Dict.pop w.jid m.accounts }
        else m
  ]

  unfoldable pub on_idle_expired : ℕ → AccountManager E → AccountManager E
  on_idle_expired i m = drop_if_idle i (get_elem? m.heap i) m

  abbrev pub expired_or_not : ℕ → Bool × AccountManager E → AccountManager E
  expired_or_not i (true, m) = on_idle_expired i m
  expired_or_not i (false, m) = m

  -- The account's countdown runs out.
  unfoldable pub manager_idle : ℕ → AccountManager E → AccountManager E
  manager_idle i m =
      expired_or_not i (at_account i false (λ w. ((idle_expire E w).1, (idle_expire E w).0)) m)

  unfoldable pub close_all : List ℕ → AccountManager E → AccountManager E
  close_all [] m = m
  close_all (i ∷ is) m = close_all is (at_account i tt (λ w. (tt, close E w)) m).1

  unfoldable pub shutdown : AccountManager E → AccountManager E
  unfolding close_all
  shutdown m = close_all (Dict.values m.accounts) (record m { accounts = [] })
