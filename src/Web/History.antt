-- ===== src/Web/History.antt =====
-- Everything that can happen to the application: sockets open, send frames and end, in any order,
-- and the accounts' events and tasks and the shutdown come between them.
use pyconduit.Base.{ℕ, [], String, some, ◌≡◌}
use mathlib.Core.List.{Memᴰ}
use pyconduit.Json.{Json}
use pyconduit.Auth.{AuthMapper}
use pyconduit.Interface.{Event}
use pyconduit.Session.World.{Env, W, counting}
use pyconduit.Session.Events.{on_event}
use pyconduit.Session.Lifecycle.{reconnect_step}
use pyconduit.Session.Manager.{get_elem?, at_account, manager_idle, shutdown}
use pyconduit.Socket.{Request}
use pyconduit.Web.Sockets.{OpenSocket, App, open_socket, end_socket, receive_frame}

module _ (E : Env) (new_client : String → String → E.xmpp.State) (mapper : AuthMapper) where
  -- The application as `create_app` leaves it.
  abbrev pub started : App E
  started = record {
    manager = record { heap = []; accounts = [] };
    audit = [];
    sockets = [];
    next_id = 1;
  }

  -- What an account does of its own.
  abbrev pub with_account : ℕ → (W E → W E) → App E → App E
  with_account i f a = record a {
    manager = (at_account E new_client i tt (λ w. (tt, f w)) a.manager).1;
  }

  pub data Step : App E → App E → Type 0 where
    opens : (req : Request) (a : App E) → Step a (open_socket E new_client mapper req a)
    receives :
        (s : OpenSocket) (raw : Json) (a : App E)
        → Memᴰ s a.sockets
        → Step a (receive_frame E new_client mapper s raw a)
    ends :
        (s : OpenSocket) (a : App E)
        → Memᴰ s a.sockets
        → Step a (end_socket E new_client mapper s a)
    happens : (i : ℕ) (e : Event) (a : App E) → Step a (with_account i (λ w. (on_event E e w).1) a)
    moves :
        (i : ℕ) (c : E.xmpp.State) (a : App E)
        → Step a (with_account i (λ w. record w { client = c }) a)
    reconnects : (i : ℕ) (a : App E) → Step a (with_account i (reconnect_step E) a)
    expires :
        (i : ℕ) (w : W E) (a : App E)
        → get_elem? a.manager.heap i ≡ some w
        → w.idle_task ≡ counting
        → Step a (record a { manager = manager_idle E new_client i a.manager })
    shuts : (a : App E) → Step a (record a { manager = shutdown E new_client a.manager })

  pub data Reach (start : App E) : App E → Type 0 where
    here : Reach start start
    next : {a b : App E} → Reach start a → Step a b → Reach start b
