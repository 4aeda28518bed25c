-- ===== src/Session/Manager/Registry.antt =====
-- What the registry of manager.py guarantees: one account for each JID.
use pyconduit.Base.{
  ℕ, zero, suc, String, string_eq, nat_eq, false, List, [], ◌∷◌, ◌++◌, length, some, ◌≡◌, ◌≢◌, refl,
  sym, ◌∙◌, ap, subst, arith, Option-cases, inl, inr,
}
use mathlib.Core.Option.{some-injective}
use pyconduit.Base.Dict
use pyconduit.Base.Dict.{Dict, UniqueKeys, get-put, get-pop, put-UniqueKeys, pop-UniqueKeys}
use pyconduit.Errors.{ok}
use pyconduit.Session.World.{Env, W, Subscriber}
use pyconduit.Session.Account.{attach, detach}
use pyconduit.Session.History.{init, Holds, init-Inv}
use pyconduit.Session.Invariant.Coroutines.{attach-Inv, detach-Inv}
use pyconduit.Session.Manager.{
  AccountManager, get_elem?, set, find_or_create, at_account, manager_attach, manager_detach,
}

module _ {A : Type 0} where
  pub get_elem?-set_self :
      (xs : List A) (i : ℕ) (v w : A) → get_elem? xs i ≡ some w → get_elem? (set xs i v) i ≡ some v
  get_elem?-set_self [] i v w e = cc
  get_elem?-set_self (x ∷ xs) zero v w e = refl
  get_elem?-set_self (x ∷ xs) (suc i) v w e = get_elem?-set_self xs i v w e

  pub get_elem?-set_other :
      (xs : List A) (i j : ℕ) (v : A) → i ≢ j → get_elem? (set xs i v) j ≡ get_elem? xs j
  get_elem?-set_other [] i j v n = refl
  get_elem?-set_other (x ∷ xs) zero zero v n = absurd (n refl)
  get_elem?-set_other (x ∷ xs) zero (suc j) v n = refl
  get_elem?-set_other (x ∷ xs) (suc i) zero v n = refl
  get_elem?-set_other (x ∷ xs) (suc i) (suc j) v n =
      get_elem?-set_other xs i j v (λ e. n (ap suc e))

  pub get_elem?-append :
      (xs ys : List A) (i : ℕ) (v : A) → get_elem? xs i ≡ some v → get_elem? (xs ++ ys) i ≡ some v
  get_elem?-append [] ys i v e = cc
  get_elem?-append (x ∷ xs) ys zero v e = e
  get_elem?-append (x ∷ xs) ys (suc i) v e = get_elem?-append xs ys i v e

  pub get_elem?-length : (xs : List A) (v : A) → get_elem? (xs ++ v ∷ []) (length xs) ≡ some v
  get_elem?-length [] v = refl
  get_elem?-length (x ∷ xs) v = get_elem?-length xs v

module _ (E : Env) where
  -- Each registered address holds a sound account of the JID that it is registered under.
  pub record IsRegistry (m : AccountManager E) : Type 0 where
    pub keys : UniqueKeys m.accounts
    pub sound :
        (jid : String) (i : ℕ)
        → Dict.get jid m.accounts ≡ some i
        → (w : W E) × (get_elem? m.heap i ≡ some w) × Holds E jid w

  module _ (new_client : String → String → E.xmpp.State) where
    create-IsRegistry :
        (jid password : String) (m : AccountManager E)
        → IsRegistry m
        → IsRegistry (record {
          heap = m.heap ++ init E jid password (new_client jid password) ∷ [];
          accounts = Dict.put jid (length m.heap) m.accounts;
        })
    create-IsRegistry jid password m r = record {
      keys = put-UniqueKeys jid (length m.heap) m.accounts r.keys;
      sound = λ other i e. elim (string_eq.dec other jid) [
        | yes same ↦ (
          init E jid password (new_client jid password),
          rw (← at_end other i same e) (get_elem?-length m.heap _),
          rw same (false, init-Inv E jid password _),
        )
        | no differ ↦
            let (w, held, h) = r.sound other i (elsewhere other i differ e) in
            (w, get_elem?-append m.heap _ i w held, h)
      ];
    }
      where
        at_end :
            (other : String) (i : ℕ)
            → other ≡ jid
            → Dict.get other (Dict.put jid (length m.heap) m.accounts) ≡ some i
            → length m.heap ≡ i
        at_end other i same e = ground (arith, get-put other jid (length m.heap) m.accounts)

        elsewhere :
            (other : String) (i : ℕ)
            → other ≢ jid
            → Dict.get other (Dict.put jid (length m.heap) m.accounts) ≡ some i
            → Dict.get other m.accounts ≡ some i
        elsewhere other i differ e = ground (arith, get-put other jid (length m.heap) m.accounts)

    pub find_or_create-IsRegistry :
        (jid password : String) (m : AccountManager E)
        → IsRegistry m
        → IsRegistry (find_or_create E new_client jid password m).1
    unfolding find_or_create
    find_or_create-IsRegistry jid password m r = elim (Option-cases (Dict.get jid m.accounts)) [
      | inl absent ↦ rw (absent, find_or_create) (create-IsRegistry jid password m r)
      | inr (i, present) ↦ rw (present, find_or_create) r
    ]

    -- A coroutine that keeps an account sound, whatever its JID, keeps the registry so.
    pub at_account-IsRegistry :
        {A : Type 0} (i : ℕ) (missing : A) (f : W E → A × W E) (m : AccountManager E)
        → ((jid : String) (w : W E)
            → get_elem? m.heap i ≡ some w
            → Holds E jid w
            → Holds E jid (f w).1)
        → IsRegistry m
        → IsRegistry (at_account E new_client i missing f m).1
    unfolding at_account
    at_account-IsRegistry i missing f m keep r = elim (Option-cases (get_elem? m.heap i)) [
      | inl gone ↦ rw (gone, at_account) r
      | inr (w, held) ↦
          rw (held, at_account)
            (record {
              keys = r.keys;
              sound = λ jid j e.
                  let (w', held', h) = r.sound jid j e in
                  elim (nat_eq.dec i j) [
                    | yes same ↦
                        let eq : w' ≡ w =
                          some-injective w' w
                            (sym held' ∙ ap (get_elem? m.heap) (sym same) ∙ held) in
                        (
                          (f w).1,
                          subst (λ k. get_elem? (set m.heap i (f w).1) k ≡ some (f w).1) same
                              (get_elem?-set_self m.heap i (f w).1 w held),
                          keep jid w held (subst (Holds E jid) eq h),
                        )
                    | no differ ↦ (w', get_elem?-set_other m.heap i j (f w).1 differ ∙ held', h)
                  ];
            })
    ]

    -- Attaching a tab, whatever happens in it, leaves the registry sound.
    pub manager_attach-IsRegistry :
        (jid password : String) (sub : Subscriber) (m : AccountManager E)
        → IsRegistry m
        → IsRegistry (manager_attach E new_client jid password sub m).1
    unfolding manager_attach
    manager_attach-IsRegistry jid password sub m r =
        at_account-IsRegistry _ (ok tt) (attach E sub) _
          (λ owner w _ (shut, h). (shut, (attach-Inv E owner shut sub).at w h))
          (find_or_create-IsRegistry jid password m r)

    pub manager_detach-IsRegistry :
        (i : ℕ) (sub : Subscriber) (m : AccountManager E)
        → IsRegistry m
        → IsRegistry (manager_detach E new_client i sub m)
    unfolding manager_detach
    manager_detach-IsRegistry i sub m r =
        at_account-IsRegistry i tt (λ w. (tt, detach E sub w)) m
          (λ owner w _ (shut, h). (shut, detach-Inv E owner shut sub w h)) r

    pub pop-IsRegistry :
        (jid : String) (m : AccountManager E)
        → IsRegistry m
        → IsRegistry (record m { accounts = Dict.pop jid m.accounts })
    pop-IsRegistry jid m r = record {
      keys = pop-UniqueKeys jid m.accounts r.keys;
      sound = λ other i e. r.sound other i (ground (arith, get-pop other jid m.accounts r.keys));
    }

    find_or_create-get :
        (jid password : String) (m : AccountManager E)
        → Dict.get jid (find_or_create E new_client jid password m).1.accounts
          ≡ some (find_or_create E new_client jid password m).0
    unfolding find_or_create
    find_or_create-get jid password m = elim (Option-cases (Dict.get jid m.accounts)) [
      | inl absent ↦
          rw (absent, find_or_create) (ground (arith, get-put jid jid (length m.heap) m.accounts))
      | inr (i, present) ↦ rw (present, find_or_create) present
    ]

    pub at_account-accounts :
        {A : Type 0} (i : ℕ) (missing : A) (f : W E → A × W E) (m : AccountManager E)
        → (at_account E new_client i missing f m).1.accounts ≡ m.accounts
    unfolding at_account
    at_account-accounts i missing f m = elim (Option-cases (get_elem? m.heap i)) [
      | inl gone ↦ rw (gone, at_account) refl
      | inr (w, held) ↦ rw (held, at_account) refl
    ]

    -- A JID is registered after a tab of it has attached, at the address that the tab was given.
    manager_attach-get :
        (jid password : String) (sub : Subscriber) (m : AccountManager E)
        → Dict.get jid (manager_attach E new_client jid password sub m).1.accounts
          ≡ some (manager_attach E new_client jid password sub m).0.0
    unfolding manager_attach
    manager_attach-get jid password sub m =
        ap (Dict.get jid) (at_account-accounts _ (ok tt) (attach E sub) _)
        ∙ find_or_create-get jid password m

    find_or_create_present :
        (jid password : String) (m : AccountManager E) (i : ℕ)
        → Dict.get jid m.accounts ≡ some i
        → find_or_create E new_client jid password m ≡ (i, m)
    unfolding find_or_create
    find_or_create_present jid password m i e = rw (e, find_or_create) refl

    pub attach_present :
        (jid password : String) (sub : Subscriber) (m : AccountManager E) (i : ℕ)
        → Dict.get jid m.accounts ≡ some i
        → ((manager_attach E new_client jid password sub m).0.0 ≡ i)
          × ((manager_attach E new_client jid password sub m).1.accounts ≡ m.accounts)
    unfolding manager_attach
    attach_present jid password sub m i e =
        let found = find_or_create_present jid password m i e in
        (
          ap (λ r. r.0) found,
          at_account-accounts _ (ok tt) (attach E sub) _ ∙ ap (λ r. r.1.accounts) found,
        )

    -- Two tabs of one JID share one account, also when other users and other passwords attach them:
    -- the second is given the first one's account, and no account is registered for it.
    pub manager_attach-shares :
        (jid password password' : String) (sub sub' : Subscriber) (m : AccountManager E)
        → let first = manager_attach E new_client jid password sub m in
          ((manager_attach E new_client jid password' sub' first.1).0.0 ≡ first.0.0)
          × ((manager_attach E new_client jid password' sub' first.1).1.accounts ≡ first.1.accounts)
    manager_attach-shares jid password password' sub sub' m =
        attach_present jid password' sub' _ _ (manager_attach-get jid password sub m)
