-- ===== src/Web/Private.antt =====
-- Whose tabs an account holds: those of the users that the mapping files put on its JID, or others.
pub mod Accounts
pub mod Sockets
pub mod Reached
use pyconduit.Base.{
  ℕ, zero, suc, nat_eq, String, string_eq, ◌==◌, is_empty, ◌&&◌, Bool, true, false, List, [], ◌∷◌,
  ◌++◌, Option, none, some, ◌≡◌, ◌≢◌, refl, sym, ap, ◌∙◌, subst, ◌⊎◌, inl, inr, Option-cases,
  Bool-cases, All, arith,
}
use mathlib.Core.List.{Memᴰ}
use pyconduit.Base.Dict
use pyconduit.Json.{Json}
use pyconduit.Errors.{Result, ok, raise}
use pyconduit.Auth.{Identity, AuthMapper, resolve}
use pyconduit.Session.World.{Env, W, Subscriber, subscriber_eq, counting}
use pyconduit.Session.Events.{on_event}
use pyconduit.Session.Account.{attach, detach}
use pyconduit.Session.Lifecycle.{reconnect_step, idle_expire, close}
use pyconduit.Session.History.{
  init, Holds, attaches, detaches, happens, receives, moves, reconnects, expires, closes, Step,
  Step-Holds,
}
use pyconduit.Session.Steps.{IsOf, Step-Keeps}
use pyconduit.Session.Private.{IsPrivate, IsPrivate-steps, init-IsPrivate}
use pyconduit.Session.Manager.{
  AccountManager, get_elem?, at_account, find_or_create, manager_attach, manager_detach,
  manager_idle, expired_or_not, on_idle_expired, drop_if_idle, close_all, shutdown,
}
use pyconduit.Session.Manager.Registry.{
  IsRegistry, at_account-IsRegistry, find_or_create-IsRegistry, pop-IsRegistry,
}
use pyconduit.Socket.{
  Request, Handshake, rejected, denied, admitted, handshake, extracted, ip_of, user_of,
}
use pyconduit.Socket.Pump.{on_frame}
use pyconduit.Socket.Laws.{handshake-resolved}
use pyconduit.Web.Sockets.{
  OpenSocket, App, after_open, opened_as, open_socket, without, end_socket, after_frame,
  receive_frame,
}
use pyconduit.Web.History.{with_account}
use pyconduit.Web.Heap.{
  IsAfter, at_account-before, at_account-IsAfter, find_or_create-before, find_or_create-after,
  find_or_create-own,
}

module _ (E : Env) (new_client : String → String → E.xmpp.State) (mapper : AuthMapper) where
  -- The tab's user is mapped to this JID, and there is a password for it.
  abbrev pub IsUserOf : String → Subscriber → Type 0
  IsUserOf jid sub = (i : Identity) × (resolve E.python mapper sub.username ≡ ok i) × (i.jid ≡ jid)

  abbrev pub IsOwn : String → W E → Type 0
  IsOwn jid w = IsPrivate E (IsUserOf jid) jid w

  -- Every account, registered or not, has sent to its own users only; every socket in its loop has
  -- a user of its account.
  pub record IsSafe (m : AccountManager E) (sockets : List OpenSocket) : Type 0 where
    pub registry : IsRegistry E m
    pub own : (i : ℕ) (w : W E) → get_elem? m.heap i ≡ some w → IsOwn w.jid w
    pub users :
        (s : OpenSocket)
        → Memᴰ s sockets
        → (w : W E) × (get_elem? m.heap s.account ≡ some w) × IsUserOf w.jid s.sub

  -- A coroutine that keeps an account sound and its frames its own.
  pub record IsKeeper {A : Type 0} (w : W E) (f : W E → A × W E) : Type 0 where
    pub sound : (jid : String) → Holds E jid w → Holds E jid (f w).1
    pub private : (jid : String) → IsOwn jid w → IsOwn jid (f w).1

  -- Any step of the account is one, where the tabs that it brings or hears are users of the JID.
  pub Step-IsKeeper :
      {A : Type 0} (w : W E) (f : W E → A × W E)
      → (step : Step E w (f w).1)
      → ((jid : String) → IsOwn jid w → IsOf (IsUserOf jid) (IsUserOf jid) step)
      → IsKeeper w f
  Step-IsKeeper w f step fit = record {
    sound = λ jid h. Step-Holds E jid step h;
    private = λ jid h. Step-Keeps (IsPrivate-steps E (IsUserOf jid) jid) step (fit jid h) h;
  }

  module _ {A : Type 0} (i : ℕ) (missing : A) (f : W E → A × W E) (m : AccountManager E)
      (sockets : List OpenSocket) (safe : IsSafe m sockets)
      (keeper : (w : W E) → get_elem? m.heap i ≡ some w → IsKeeper w f) where
    pub still-IsOwn :
        (j : ℕ) (w w' : W E)
        → get_elem? m.heap j ≡ some w
        → IsAfter E new_client i j f w w'
        → IsOwn w.jid w'
    still-IsOwn j w w' held (inl same) = rw same (safe.own j w held)
    still-IsOwn j w w' held (inr (at, same)) =
        rw same ((keeper w (rw at held)).private w.jid (safe.own j w held))

    pub at_account-IsSafe : IsSafe (at_account E new_client i missing f m).1 sockets
    at_account-IsSafe = record {
      registry =
          at_account-IsRegistry E new_client i missing f m
            (λ jid w held h. (keeper w held).sound jid h) safe.registry;
      own = λ j w' e.
          let (w, held, after) = at_account-before E new_client i missing f m j w' e in
          let h = still-IsOwn j w w' held after in subst (λ jid. IsOwn jid w') (sym h.own) h;
      users = λ s here.
          let (w, held, user) = safe.users s here in
          let (w', held', after) = at_account-IsAfter E new_client i missing f m s.account w held in
          let h = still-IsOwn s.account w w' held after in
          (w', held', subst (λ jid. IsUserOf jid s.sub) (sym h.own) user);
    }

  pub with_account-IsSafe :
      (i : ℕ) (f : W E → W E) (m : AccountManager E) (sockets : List OpenSocket)
      → IsSafe m sockets
      → ((w : W E) → IsKeeper w (λ v. (tt, f v)))
      → IsSafe (at_account E new_client i tt (λ w. (tt, f w)) m).1 sockets
  with_account-IsSafe i f m sockets safe keeper =
      at_account-IsSafe i tt (λ w. (tt, f w)) m sockets safe (λ w _. keeper w)
