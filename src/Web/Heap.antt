-- ===== src/Web/Heap.antt =====
-- The accounts of a manager, by address, after a coroutine of one of them has run.
use pyconduit.Base.{
  ℕ, zero, suc, nat_eq, String, string_eq, List, [], ◌∷◌, ◌++◌, some, ◌≡◌, refl, sym, ap, ◌∙◌,
  subst, ◌⊎◌, inl, inr, Option-cases,
}
use mathlib.Core.Option.{some-injective}
use pyconduit.Base.Dict
use pyconduit.Session.World.{Env, W}
use pyconduit.Session.History.{init}
use pyconduit.Session.Manager.{AccountManager, get_elem?, set, at_account, find_or_create}
use pyconduit.Session.Manager.Registry.{
  IsRegistry, get_elem?-set_self, get_elem?-set_other, get_elem?-append, get_elem?-length,
}

get_elem?-snoc :
    {A : Type 0} (xs : List A) (v w : A) (i : ℕ)
    → get_elem? (xs ++ v ∷ []) i ≡ some w
    → (get_elem? xs i ≡ some w) ⊎ (w ≡ v)
get_elem?-snoc [] v w zero e = inr (sym (some-injective v w e))
get_elem?-snoc [] v w (suc i) e = absurd (cc)
get_elem?-snoc (x ∷ xs) v w zero e = inl e
get_elem?-snoc (x ∷ xs) v w (suc i) e = get_elem?-snoc xs v w i e

module _ (E : Env) (new_client : String → String → E.xmpp.State) where
  -- The account at an address is the one that was there, or what the coroutine made of it.
  abbrev pub IsAfter : {A : Type 0} → ℕ → ℕ → (W E → A × W E) → W E → W E → Type 0
  IsAfter i j f w w' = (w' ≡ w) ⊎ ((i ≡ j) × (w' ≡ (f w).1))

  module _ {A : Type 0} (i : ℕ) (missing : A) (f : W E → A × W E) (m : AccountManager E) where
    pub at_account-before :
        (j : ℕ) (w' : W E)
        → get_elem? (at_account E new_client i missing f m).1.heap j ≡ some w'
        → (w : W E) × (get_elem? m.heap j ≡ some w) × IsAfter i j f w w'
    unfolding at_account
    at_account-before j w' e = elim (Option-cases (get_elem? m.heap i)) [
      | inl gone ↦ (w', (rw (gone, at_account) at e), inl refl)
      | inr (w, held) ↦
          let e' : get_elem? (set m.heap i (f w).1) j ≡ some w' = rw (held, at_account) at e in
          elim (nat_eq.dec i j) [
            | yes same ↦ (
              w,
              subst (λ k. get_elem? m.heap k ≡ some w) same held,
              inr (
                same,
                some-injective w' (f w).1 (
                    sym e'
                    ∙ subst (λ k. get_elem? (set m.heap i (f w).1) k ≡ some (f w).1) same
                        (get_elem?-set_self m.heap i (f w).1 w held)),
              ),
            )
            | no other ↦ (w', sym (get_elem?-set_other m.heap i j (f w).1 other) ∙ e', inl refl)
          ]
    ]

    pub at_account-IsAfter :
        (j : ℕ) (w : W E)
        → get_elem? m.heap j ≡ some w
        → (w' : W E) × (get_elem? (at_account E new_client i missing f m).1.heap j ≡ some w')
          × IsAfter i j f w w'
    unfolding at_account
    at_account-IsAfter j w e = elim (Option-cases (get_elem? m.heap i)) [
      | inl gone ↦ (w, rw (gone, at_account) e, inl refl)
      | inr (v, held) ↦ elim (nat_eq.dec i j) [
        | yes same ↦
            let eq : v ≡ w = some-injective v w (sym held ∙ ap (get_elem? m.heap) same ∙ e) in
            (
              (f v).1,
              rw (held, at_account)
                  (subst (λ k. get_elem? (set m.heap i (f v).1) k ≡ some (f v).1) same
                    (get_elem?-set_self m.heap i (f v).1 v held)),
              inr (same, ap (λ x. (f x).1) eq),
            )
        | no other ↦
            (w, rw (held, at_account) (get_elem?-set_other m.heap i j (f v).1 other ∙ e), inl refl)
      ]
    ]

    pub at_account-own :
        (w : W E)
        → get_elem? m.heap i ≡ some w
        → get_elem? (at_account E new_client i missing f m).1.heap i ≡ some (f w).1
    unfolding at_account
    at_account-own w held = rw (held, at_account) (get_elem?-set_self m.heap i (f w).1 w held)

  -- What `attach` finds or makes: every other account is there as it was.
  pub find_or_create-before :
      (jid password : String) (m : AccountManager E) (j : ℕ) (w : W E)
      → get_elem? (find_or_create E new_client jid password m).1.heap j ≡ some w
      → (get_elem? m.heap j ≡ some w) ⊎ (w ≡ init E jid password (new_client jid password))
  unfolding find_or_create
  find_or_create-before jid password m j w e = elim (Option-cases (Dict.get jid m.accounts)) [
    | inl absent ↦ get_elem?-snoc m.heap _ w j (rw (absent, find_or_create) at e)
    | inr (i, present) ↦ inl (rw (present, find_or_create) at e)
  ]

  pub find_or_create-after :
      (jid password : String) (m : AccountManager E) (j : ℕ) (w : W E)
      → get_elem? m.heap j ≡ some w
      → get_elem? (find_or_create E new_client jid password m).1.heap j ≡ some w
  unfolding find_or_create
  find_or_create-after jid password m j w e = elim (Option-cases (Dict.get jid m.accounts)) [
    | inl absent ↦ rw (absent, find_or_create) (get_elem?-append m.heap _ j w e)
    | inr (i, present) ↦ rw (present, find_or_create) e
  ]

  -- The account that it gives is of the JID.
  pub find_or_create-own :
      (jid password : String) (m : AccountManager E)
      → IsRegistry E m
      → let (i, m') = find_or_create E new_client jid password m in
        (w : W E) × (get_elem? m'.heap i ≡ some w) × (w.jid ≡ jid)
  unfolding find_or_create init
  find_or_create-own jid password m r = elim (Option-cases (Dict.get jid m.accounts)) [
    | inl absent ↦ (
      init E jid password (new_client jid password),
      rw (absent, find_or_create) (get_elem?-length m.heap _),
      refl,
    )
    | inr (i, present) ↦
        let (w, held, (_, inv)) = r.sound jid i present in
        (w, rw (present, find_or_create) held, inv.own)
  ]
