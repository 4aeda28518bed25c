-- ===== src/Web/Sockets.antt =====
-- src/pyconduit/web/ws.py, cut at its waits: a socket opens, is read a frame from, and ends, with
-- other sockets and the accounts' own tasks in between.
use pyconduit.Base.{ℕ, suc, String, ◌==◌, if◌then◌else◌, List, [], ◌∷◌, ◌++◌}
use pyconduit.Json.{Json}
use pyconduit.Errors.{Result, ok, raise}
use pyconduit.Auth.{AuthMapper}
use pyconduit.Session.World.{Env, Subscriber, subscriber_eq, AuditEntry, auth_ok}
use pyconduit.Session.Manager.{AccountManager, manager_attach, manager_detach, at_account}
use pyconduit.Socket.{Request, Handshake, rejected, denied, admitted, handshake}
use pyconduit.Socket.Pump.{on_frame}

-- A socket in its loop: its account's address and its tab.
pub record OpenSocket : Type 0 where
  pub account : ℕ
  pub sub : Subscriber

-- The accounts, what the handlers have written to the audit log, the sockets in their loops, and
-- the next of `_ids`.
pub record App (E : Env) : Type 0 where
  pub manager : AccountManager E
  pub audit : List AuditEntry
  pub sockets : List OpenSocket
  pub next_id : ℕ

-- The sockets but those of this tab.
abbrev pub without : Subscriber → List OpenSocket → List OpenSocket
without sub [] = []
without sub (s ∷ ss) = if s.sub == sub then without sub ss else s ∷ without sub ss

module _ (E : Env) (new_client : String → String → E.xmpp.State) (mapper : AuthMapper) where
  -- After `manager.attach`: where it raises there is no loop, and no `finally`.
  abbrev pub after_open : Subscriber → (ℕ × Result (Unit {0})) × AccountManager E → App E → App E
  after_open sub ((i, ok _), m) a = record a {
    manager = m;
    sockets = a.sockets ++ record { account = i; sub = sub } ∷ [];
  }
  after_open sub ((i, raise _), m) a = record a { manager = m }

  abbrev pub opened_as : Handshake → App E → App E
  opened_as (rejected entry) a = record a { audit = a.audit ++ entry ∷ [] }
  opened_as (denied entry told) a = record a { audit = a.audit ++ entry ∷ [] }
  opened_as (admitted i ip) a =
      let sub : Subscriber = record { username = i.username; ip = ip; id = a.next_id } in
      after_open sub (manager_attach E new_client i.jid i.password sub a.manager)
        (record a { audit = a.audit ++ auth_ok i.username i.jid ip ∷ []; next_id = suc a.next_id })

  -- `handle_ws`, up to its loop.
  unfoldable pub open_socket : Request → App E → App E
  open_socket req a = opened_as (handshake E.config E.python mapper req) a

  -- The `finally` of the loop.
  unfoldable pub end_socket : OpenSocket → App E → App E
  end_socket s a = record a {
    manager = manager_detach E new_client s.account s.sub a.manager;
    sockets = without s.sub a.sockets;
  }

  abbrev pub after_frame : OpenSocket → Result (Unit {0}) × AccountManager E → App E → App E
  after_frame s (ok _, m) a = record a { manager = m }
  after_frame s (raise _, m) a = end_socket s (record a { manager = m })

  -- One round of the loop, once a frame is read.
  unfoldable pub receive_frame : OpenSocket → Json → App E → App E
  receive_frame s raw a =
      after_frame s (at_account E new_client s.account (ok tt) (on_frame E s.sub raw) a.manager) a
