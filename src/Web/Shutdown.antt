-- ===== src/Web/Shutdown.antt =====
-- The end of `lifespan` in src/pyconduit/web/app.py.
use pyconduit.Base.{
  ℕ, nat_eq, String, string_eq, ◌==◌, true, false, List, [], ◌∷◌, some, ◌≡◌, refl, ◌∙◌, subst, inl,
  inr, arith, Bool-cases,
}
use mathlib.Core.List.Memᴰ.{Memᴰ}
use pyconduit.Base.Dict
use pyconduit.Base.Dict.{Dict}
use pyconduit.Audit.Sinks.{Files, Sink, close_sinks}
use pyconduit.Session.World.{Env, W, is_pending}
use pyconduit.Session.Lifecycle.{close}
use pyconduit.Session.Lifecycle.Laws.{close-Inv}
use pyconduit.Session.Invariant.{Inv}
use pyconduit.Session.History.{Holds}
use pyconduit.Session.Manager.{AccountManager, get_elem?, at_account, close_all, shutdown}
use pyconduit.Session.Manager.Registry.{IsRegistry, at_account-accounts}
use pyconduit.Web.Heap.{at_account-IsAfter, at_account-own}

values-get :
    (jid : String) (d : Dict String ℕ) (i : ℕ) → Dict.get jid d ≡ some i → Memᴰ i (Dict.values d)
unfolding Dict.get
values-get jid [] i e = absurd (cc)
values-get jid ((k, j) ∷ d) i e = elim (Bool-cases (jid == k)) [
  | inl same ↦ Memᴰ.head (ground arith)
  | inr other ↦ Memᴰ.tail (values-get jid d i (rw (other, Dict.get) at e))
]

module _ (E : Env) (new_client : String → String → E.xmpp.State) where
  -- After the application's last request.
  unfoldable pub stop :
      (X : Files) → List (Sink X) → AccountManager E → X.State → AccountManager E × X.State
  stop X sinks m st = (shutdown E new_client m, close_sinks X sinks st)

  -- An account is at the address, and closing.
  abbrev IsShutAt : String → ℕ → AccountManager E → Type 0
  IsShutAt owner i m = (w : W E) × (get_elem? m.heap i ≡ some w) × Inv E owner true w

  close_one : ℕ → AccountManager E → AccountManager E
  close_one i m = (at_account E new_client i tt (λ w. (tt, close E w)) m).1

  close_one-stays :
      (owner : String) (i j : ℕ) (m : AccountManager E)
      → IsShutAt owner i m
      → IsShutAt owner i (close_one j m)
  unfolding close_one
  close_one-stays owner i j m (w, held, inv) =
      let (w', held', after) =
        at_account-IsAfter E new_client j tt (λ v. (tt, close E v)) m i w held in
      (
        w',
        held',
        elim after [
          | inl same ↦ rw same inv
          | inr (_, same) ↦ rw same (close-Inv E owner true w inv)
        ],
      )

  -- An account is at the address, sound, and perhaps closing.
  abbrev IsHeldAt : String → ℕ → AccountManager E → Type 0
  IsHeldAt owner i m = (w : W E) × (get_elem? m.heap i ≡ some w) × Holds E owner w

  close_one-held :
      (owner : String) (i j : ℕ) (m : AccountManager E)
      → IsHeldAt owner i m
      → IsHeldAt owner i (close_one j m)
  unfolding close_one
  close_one-held owner i j m (w, held, (shut, inv)) =
      let (w', held', after) =
        at_account-IsAfter E new_client j tt (λ v. (tt, close E v)) m i w held in
      (
        w',
        held',
        elim after [
          | inl same ↦ rw same (shut, inv)
          | inr (_, same) ↦ rw same (true, close-Inv E owner shut w inv)
        ],
      )

  close_one-shuts :
      (owner : String) (i : ℕ) (m : AccountManager E)
      → IsHeldAt owner i m
      → IsShutAt owner i (close_one i m)
  unfolding close_one
  close_one-shuts owner i m (w, held, (shut, inv)) = (
    close E w,
    at_account-own E new_client i tt (λ v. (tt, close E v)) m w held,
    close-Inv E owner shut w inv,
  )

  close_all-stays :
      (owner : String) (i : ℕ) (is : List ℕ) (m : AccountManager E)
      → IsShutAt owner i m
      → IsShutAt owner i (close_all E new_client is m)
  unfolding close_all close_one
  close_all-stays owner i [] m h = h
  close_all-stays owner i (j ∷ is) m h =
      close_all-stays owner i is (close_one j m) (close_one-stays owner i j m h)

  close_all-shuts :
      (owner : String) (i : ℕ) (is : List ℕ) (m : AccountManager E)
      → Memᴰ i is
      → IsHeldAt owner i m
      → IsShutAt owner i (close_all E new_client is m)
  unfolding close_all close_one
  close_all-shuts owner i [] m here h = elim here [ ]
  close_all-shuts owner i (j ∷ is) m (Memᴰ.head e) h =
      close_all-stays owner i is (close_one j m)
        (subst (λ k. IsShutAt owner i (close_one k m)) e (close_one-shuts owner i m h))
  close_all-shuts owner i (j ∷ is) m (Memᴰ.tail here) h =
      close_all-shuts owner i is (close_one j m) here (close_one-held owner i j m h)

  close_all-accounts :
      (is : List ℕ) (m : AccountManager E) → (close_all E new_client is m).accounts ≡ m.accounts
  unfolding close_all
  close_all-accounts [] m = refl
  close_all-accounts (i ∷ is) m =
      close_all-accounts is _ ∙ at_account-accounts E new_client i tt (λ w. (tt, close E w)) m

  -- At the end of the application no account is registered, and every account that was is closing,
  -- with no reconnect task under way.
  pub stop-closes :
      (X : Files) (sinks : List (Sink X)) (m : AccountManager E) (st : X.State)
      → IsRegistry E m
      → let m' = (stop X sinks m st).0 in
        (m'.accounts ≡ [])
        × ((jid : String) (i : ℕ)
            → Dict.get jid m.accounts ≡ some i
            → (w : W E) × (get_elem? m'.heap i ≡ some w)
              × (w.closing ≡ true)
              × (is_pending E w.reconnect_task ≡ false))
  unfolding stop shutdown
  stop-closes X sinks m st r = (
    close_all-accounts (Dict.values m.accounts) (record m { accounts = [] }),
    λ jid i e.
        let (w, held, h) = r.sound jid i e in
        let (w', held', inv) =
          close_all-shuts jid i (Dict.values m.accounts) (record m { accounts = [] })
            (values-get jid m.accounts i e) (w, held, h) in
        (w', held', inv.phase, inv.settled refl),
  )
