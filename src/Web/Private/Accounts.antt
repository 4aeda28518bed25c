-- ===== src/Web/Private/Accounts.antt =====
-- Whose tabs the accounts hold after their tasks, a countdown and the shutdown.
use pyconduit.Base.{
  ℕ, nat_eq, String, string_eq, ◌==◌, is_empty, ◌&&◌, Bool, true, false, List, [], ◌∷◌, Option,
  none, some, ◌≡◌, sym, ap, ◌∙◌, subst, Bool-cases, Option-cases, inl, inr,
}
use mathlib.Core.Option.{some-injective}
use pyconduit.Base.Dict
use pyconduit.Errors.{ok}
use pyconduit.Auth.{AuthMapper}
use pyconduit.Session.World.{Env, W, Subscriber, counting}
use pyconduit.Session.Account.{attach}
use pyconduit.Session.Lifecycle.{idle_expire, close}
use pyconduit.Session.History.{init, attaches, expires, closes}
use pyconduit.Session.Private.{init-IsPrivate}
use pyconduit.Session.Manager.{
  AccountManager, get_elem?, find_or_create, manager_attach, manager_idle, expired_or_not,
  on_idle_expired, drop_if_idle, close_all, shutdown,
}
use pyconduit.Session.Manager.Registry.{find_or_create-IsRegistry, pop-IsRegistry}
use pyconduit.Web.Sockets.{OpenSocket}
use pyconduit.Web.Heap.{
  find_or_create-before, find_or_create-after, find_or_create-own, at_account-IsAfter,
}
use pyconduit.Web.Private.{
  IsUserOf, IsOwn, IsSafe, IsKeeper, Step-IsKeeper, still-IsOwn, at_account-IsSafe,
  with_account-IsSafe,
}

module _ (E : Env) (new_client : String → String → E.xmpp.State) (mapper : AuthMapper)
    (sockets : List OpenSocket) where
  abbrev Safe : AccountManager E → Type 0
  Safe m = IsSafe E new_client mapper m sockets

  popped-IsSafe :
      (jid : String) (m : AccountManager E)
      → Safe m
      → Safe (record m { accounts = Dict.pop jid m.accounts })
  popped-IsSafe jid m safe = record {
    registry = pop-IsRegistry E new_client jid m safe.registry;
    own = safe.own;
    users = safe.users;
  }

  drop_if_idle-IsSafe :
      (i : ℕ) (o : Option (W E)) (m : AccountManager E)
      → Safe m
      → Safe (drop_if_idle E new_client i o m)
  drop_if_idle-IsSafe i none m safe = safe
  drop_if_idle-IsSafe i (some w) m safe = elim (Option-cases (Dict.get w.jid m.accounts)) [
    | inl absent ↦ rw (absent, drop_if_idle) safe
    | inr (j, present) ↦ elim (Bool-cases (is_empty w.subscribers && (j == i))) [
      | inl idle ↦ rw (present, drop_if_idle) (rw idle (popped-IsSafe w.jid m safe))
      | inr used ↦ rw (present, drop_if_idle) (rw used safe)
    ]
  ]

  expired_or_not-IsSafe :
      (i : ℕ) (r : Bool × AccountManager E) → Safe r.1 → Safe (expired_or_not E new_client i r)
  unfolding on_idle_expired
  expired_or_not-IsSafe i (true, m) safe = drop_if_idle-IsSafe i (get_elem? m.heap i) m safe
  expired_or_not-IsSafe i (false, m) safe = safe

  pub manager_idle-IsSafe :
      (i : ℕ) (m : AccountManager E)
      → Safe m
      → ((w : W E) → get_elem? m.heap i ≡ some w → w.idle_task ≡ counting)
      → Safe (manager_idle E new_client i m)
  unfolding manager_idle
  manager_idle-IsSafe i m safe running = expired_or_not-IsSafe i _ (
      at_account-IsSafe E new_client mapper i false
        (λ w. ((idle_expire E w).1, (idle_expire E w).0)) m sockets safe
        (λ w held.
          Step-IsKeeper E new_client mapper w _ (expires w (running w held)) (λ jid h. tt)))

  close_all-IsSafe :
      (is : List ℕ) (m : AccountManager E) → Safe m → Safe (close_all E new_client is m)
  unfolding close_all
  close_all-IsSafe [] m safe = safe
  close_all-IsSafe (i ∷ is) m safe = close_all-IsSafe is _ (
      with_account-IsSafe E new_client mapper i (close E) m sockets safe
        (λ w. Step-IsKeeper E new_client mapper w _ (closes w) (λ jid h. tt)))

  pub shutdown-IsSafe : (m : AccountManager E) → Safe m → Safe (shutdown E new_client m)
  unfolding shutdown Dict.get
  shutdown-IsSafe m safe =
      close_all-IsSafe (Dict.values m.accounts) (record m { accounts = [] })
        (record {
          registry = record { keys = tt; sound = λ jid i e. absurd (cc) };
          own = safe.own;
          users = safe.users;
        })

  find_or_create-IsSafe :
      (jid password : String) (m : AccountManager E)
      → Safe m
      → Safe (find_or_create E new_client jid password m).1
  unfolding init
  find_or_create-IsSafe jid password m safe = record {
    registry = find_or_create-IsRegistry E new_client jid password m safe.registry;
    own = λ i w e. elim (find_or_create-before E new_client jid password m i w e) [
      | inl old ↦ safe.own i w old
      | inr new ↦ rw new (init-own (new_client jid password))
    ];
    users = λ s here.
        let (w, held, user) = safe.users s here in
        (w, find_or_create-after E new_client jid password m s.account w held, user);
  }
    where
      init-own :
          (c : E.xmpp.State)
          → IsOwn E new_client mapper (init E jid password c).jid (init E jid password c)
      init-own c = init-IsPrivate E (IsUserOf E new_client mapper jid) jid password c

  module _ (jid password : String) (sub : Subscriber) (m : AccountManager E)
      (user : IsUserOf E new_client mapper jid sub) (safe : Safe m) where
    attach-IsKeeper :
        let (i, m') = find_or_create E new_client jid password m in
        (w : W E) → get_elem? m'.heap i ≡ some w → IsKeeper E new_client mapper w (attach E sub)
    attach-IsKeeper w at =
        let (v, held, own) = find_or_create-own E new_client jid password m safe.registry in
        let same : w ≡ v = some-injective w v (sym at ∙ held) in
        Step-IsKeeper E new_client mapper w (attach E sub) (attaches sub w) (λ jid' h.
          subst (λ j. IsUserOf E new_client mapper j sub)
            (sym own ∙ ap (λ x. x.jid) (sym same) ∙ h.own) user)

    -- A user of the JID attaches.
    pub manager_attach-IsSafe : Safe (manager_attach E new_client jid password sub m).1
    unfolding manager_attach
    manager_attach-IsSafe =
        let (i, m') = find_or_create E new_client jid password m in
        at_account-IsSafe E new_client mapper i (ok tt) (attach E sub) m' sockets
          (find_or_create-IsSafe jid password m safe) attach-IsKeeper

    -- The account that the tab is given is of its user's JID.
    pub manager_attach-own :
        let r = manager_attach E new_client jid password sub m in
        (w : W E) × (get_elem? r.1.heap r.0.0 ≡ some w) × IsUserOf E new_client mapper w.jid sub
    unfolding manager_attach
    manager_attach-own =
        let (i, m') = find_or_create E new_client jid password m in
        let (v, held, own) = find_or_create-own E new_client jid password m safe.registry in
        let (w, found, after) =
          at_account-IsAfter E new_client i (ok tt) (attach E sub) m' i v held in
        let h =
          still-IsOwn E new_client mapper i (ok tt) (attach E sub) m' sockets
            (find_or_create-IsSafe jid password m safe) attach-IsKeeper i v w held after in
        (w, found, subst (λ j. IsUserOf E new_client mapper j sub) (sym own ∙ sym h.own) user)
