-- ===== src/Session/Manager/Expiry.antt =====
-- What becomes of an account whose idle countdown runs out.
use pyconduit.Base.{
  ℕ, String, string_eq, nat_eq, ◌==◌, true, false, [], is_empty, if◌then◌else◌, none, some, ◌≡◌,
  refl, sym, ◌∙◌, ap, subst, arith,
}
use mathlib.Core.Option.{some-injective}
use pyconduit.Base.Dict
use pyconduit.Base.Dict.{Dict, UniqueKeys, get-pop}
use pyconduit.Session.World.{Env, W, counting}
use pyconduit.Session.Lifecycle.{idle_expire}
use pyconduit.Session.Lifecycle.Laws.{idle_expire-closes}
use pyconduit.Session.Lifecycle.Empty.{idle_expire_at_once}
use pyconduit.Session.History.{Holds}
use pyconduit.Session.Manager.{
  AccountManager, get_elem?, set, at_account, on_idle_expired, drop_if_idle, expired_or_not,
  manager_idle,
}
use pyconduit.Session.Manager.Registry.{IsRegistry, get_elem?-set_self}

module _ (E : Env) (new_client : String → String → E.xmpp.State) where
  on_idle_expired-drops :
      (i : ℕ) (m : AccountManager E) (w : W E)
      → get_elem? m.heap i ≡ some w
      → w.subscribers ≡ []
      → Dict.get w.jid m.accounts ≡ some i
      → on_idle_expired E new_client i m ≡ record m { accounts = Dict.pop w.jid m.accounts }
  unfolding on_idle_expired
  on_idle_expired-drops i m w held empty registered =
      let none_left : is_empty w.subscribers ≡ true = ap is_empty empty in
      rw (held, drop_if_idle) (rw (registered, drop_if_idle) (rw none_left (ground arith)))

  expired_at :
      (i : ℕ) (m : AccountManager E) (w : W E)
      → get_elem? m.heap i ≡ some w
      → manager_idle E new_client i m
        ≡ expired_or_not E new_client i
            ((idle_expire E w).1, record m { heap = set m.heap i (idle_expire E w).0 })
  unfolding manager_idle at_account
  expired_at i m w held = rw (held, at_account) refl

  registered_sound :
      (jid : String) (i : ℕ) (m : AccountManager E) (w : W E)
      → IsRegistry E m
      → Dict.get jid m.accounts ≡ some i
      → get_elem? m.heap i ≡ some w
      → Holds E jid w
  registered_sound jid i m w r registered held =
      let (w', held', h) = r.sound jid i registered in
      subst (Holds E jid) (some-injective w' w (sym held' ∙ held)) h

  -- A registered account whose countdown runs out is closed and leaves the registry, and every
  -- other JID keeps its account, provided that the client's `disconnect` does not wait.
  pub manager_idle-forgets :
      (jid other : String) (i : ℕ) (m : AccountManager E) (w : W E)
      → IsRegistry E m
      → Dict.get jid m.accounts ≡ some i
      → get_elem? m.heap i ≡ some w
      → w.idle_task ≡ counting
      → E.xmpp.disconnect_waits w.client ≡ false
      → let m' = manager_idle E new_client i m in
        ((w' : W E) × (get_elem? m'.heap i ≡ some w') × (w'.closing ≡ true))
        × (Dict.get other m'.accounts ≡ (if other == jid then none else Dict.get other m.accounts))
  manager_idle-forgets jid other i m w r registered held running atonce =
      let (shut, h) = registered_sound jid i m w r registered held in
      let (told, left) = idle_expire_at_once E w (h.alone running) atonce in
      let after = idle_expire-closes E jid shut w h running in
      let w' : W E = (idle_expire E w).0 in
      let m' : AccountManager E = record m { heap = set m.heap i w' } in
      let held' : get_elem? m'.heap i ≡ some w' = get_elem?-set_self m.heap i w' w held in
      let over : manager_idle E new_client i m ≡ record m' { accounts = Dict.pop jid m.accounts } =
        expired_at i m w held
        ∙ ap (λ b. expired_or_not E new_client i (b, m')) told
        ∙ on_idle_expired-drops i m' w' held' left (rw after.own registered)
        ∙ ap (λ j. record m' { accounts = Dict.pop j m.accounts }) after.own in
      rw over ((w', held', after.phase), get-pop other jid m.accounts r.keys)
