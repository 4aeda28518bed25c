-- ===== src/Web/Private/Reached.antt =====
-- Whose tabs the accounts hold after a history of the application in src/pyconduit/web/.
use pyconduit.Base.{ℕ, String, some, ◌≡◌, sym, ap, ◌∙◌, All}
use mathlib.Core.List.Memᴰ
use mathlib.Core.Option.{some-injective}
use pyconduit.Base.Dict
use pyconduit.Auth.{AuthMapper}
use pyconduit.Session.World.{Env, W}
use pyconduit.Session.Manager.{get_elem?}
use pyconduit.Session.Events.{on_event}
use pyconduit.Session.Lifecycle.{reconnect_step}
use pyconduit.Session.History as Account
use pyconduit.Web.Sockets.{App}
use pyconduit.Web.History.{
  Step, opens, receives, ends, happens, moves, reconnects, expires, shuts, Reach, here, next,
  started,
}
use pyconduit.Web.Private.{IsUserOf, IsSafe, Step-IsKeeper, with_account-IsSafe}
use pyconduit.Web.Private.Accounts.{manager_idle-IsSafe, shutdown-IsSafe}
use pyconduit.Web.Private.Sockets.{open_socket-IsSafe, receive_frame-IsSafe, end_socket-IsSafe}

module _ (E : Env) (new_client : String → String → E.xmpp.State) (mapper : AuthMapper) where
  abbrev Safe : App E → Type 0
  Safe a = IsSafe E new_client mapper a.manager a.sockets

  Step-IsSafe : {a b : App E} → Step E new_client mapper a b → Safe a → Safe b
  Step-IsSafe (opens req a) safe = open_socket-IsSafe E new_client mapper req a safe
  Step-IsSafe (receives s raw a m) safe = receive_frame-IsSafe E new_client mapper s raw a m safe
  Step-IsSafe (ends s a m) safe = end_socket-IsSafe E new_client mapper s a m safe
  Step-IsSafe (happens i e a) safe =
      with_account-IsSafe E new_client mapper i (λ w. (on_event E e w).1) a.manager a.sockets safe
        (λ w. Step-IsKeeper E new_client mapper w _ (Account.Step.happens e w) (λ jid h. tt))
  Step-IsSafe (moves i c a) safe =
      with_account-IsSafe E new_client mapper i (λ w. record w { client = c }) a.manager a.sockets
        safe (λ w. Step-IsKeeper E new_client mapper w _ (Account.Step.moves c w) (λ jid h. tt))
  Step-IsSafe (reconnects i a) safe =
      with_account-IsSafe E new_client mapper i (reconnect_step E) a.manager a.sockets safe
        (λ w. Step-IsKeeper E new_client mapper w _ (Account.Step.reconnects w) (λ jid h. tt))
  Step-IsSafe (expires i w a held running) safe =
      manager_idle-IsSafe E new_client mapper a.sockets i a.manager safe
        (λ v at. ap (λ x. x.idle_task) (some-injective v w (sym at ∙ held)) ∙ running)
  Step-IsSafe (shuts a) safe = shutdown-IsSafe E new_client mapper a.sockets a.manager safe

  started-IsSafe : Safe (started E new_client mapper)
  unfolding Dict.get
  started-IsSafe = record {
    registry = record { keys = tt; sound = λ jid i e. absurd (cc) };
    own = λ i w e. absurd (cc);
    users = λ s m. absurd (Memᴰ.not-nil m);
  }

  pub Reach-IsSafe :
      {a : App E} → Reach E new_client mapper (started E new_client mapper) a → Safe a
  Reach-IsSafe here = started-IsSafe
  Reach-IsSafe (next r step) = Step-IsSafe step (Reach-IsSafe r)

  -- Whatever has happened to the application since it started, sockets of different users in any
  -- order and the accounts' own tasks and events between them, each account, registered or not,
  -- holds only tabs, and has sent frames only to tabs, whose user the mapping files put on its JID.
  pub Reach-private :
      (a : App E) (i : ℕ) (w : W E)
      → Reach E new_client mapper (started E new_client mapper) a
      → get_elem? a.manager.heap i ≡ some w
      → All (IsUserOf E new_client mapper w.jid) w.subscribers
        × All (λ e. IsUserOf E new_client mapper w.jid e.0) w.sent
  Reach-private a i w r held = let own = (Reach-IsSafe r).own i w held in (own.members, own.told)
