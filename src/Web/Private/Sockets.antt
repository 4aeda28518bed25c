-- ===== src/Web/Private/Sockets.antt =====
-- Whose tabs the accounts hold after a socket opens, is read or ends.
use pyconduit.Base.{
  ℕ, String, ◌==◌, List, [], ◌∷◌, ◌++◌, some, ◌≡◌, refl, sym, ap, ◌∙◌, subst, Bool-cases, inl, inr,
}
use mathlib.Core.List.{Memᴰ}
use mathlib.Core.List.Memᴰ
use mathlib.Core.Option.{some-injective}
use pyconduit.Json.{Json}
use pyconduit.Errors.{Result, ok, raise}
use pyconduit.Auth.{Identity, AuthMapper, resolve}
use pyconduit.Session.World.{Env, W, Subscriber, subscriber_eq}
use pyconduit.Session.Account.{detach}
use pyconduit.Session.History.{receives, detaches}
use pyconduit.Session.Manager.{AccountManager, get_elem?, manager_attach, manager_detach}
use pyconduit.Socket.{Request, Handshake, rejected, denied, admitted, handshake}
use pyconduit.Socket.Pump.{on_frame}
use pyconduit.Socket.Laws.{handshake-resolved}
use pyconduit.Web.Sockets.{
  OpenSocket, App, after_open, opened_as, open_socket, without, end_socket, after_frame,
  receive_frame,
}
use pyconduit.Web.Private.{IsUserOf, IsSafe, Step-IsKeeper, at_account-IsSafe}
use pyconduit.Web.Private.Accounts.{manager_attach-IsSafe, manager_attach-own}

without-subset :
    (sub : Subscriber) (s : OpenSocket) (ss : List OpenSocket) → Memᴰ s (without sub ss) → Memᴰ s ss
without-subset sub s [] m = m
without-subset sub s (t ∷ ss) m = elim (Bool-cases (t.sub == sub)) [
  | inl same ↦ Memᴰ.tail (without-subset sub s ss (rw same at m))
  | inr other ↦ kept (without-subset sub s ss) (rw other at m)
]
  where
    kept : (Memᴰ s (without sub ss) → Memᴰ s ss) → Memᴰ s (t ∷ without sub ss) → Memᴰ s (t ∷ ss)
    kept go (Memᴰ.head e) = Memᴰ.head e
    kept go (Memᴰ.tail m') = Memᴰ.tail (go m')

module _ (E : Env) (new_client : String → String → E.xmpp.State) (mapper : AuthMapper) where
  abbrev Safe : App E → Type 0
  Safe a = IsSafe E new_client mapper a.manager a.sockets

  fewer-IsSafe :
      (m : AccountManager E) (ss ts : List OpenSocket)
      → ((s : OpenSocket) → Memᴰ s ts → Memᴰ s ss)
      → IsSafe E new_client mapper m ss
      → IsSafe E new_client mapper m ts
  fewer-IsSafe m ss ts sub safe = record {
    registry = safe.registry;
    own = safe.own;
    users = λ s here. safe.users s (sub s here);
  }

  -- A socket's frame or its end: its user is one of its account.
  heard-IsUserOf :
      (s : OpenSocket) (a : App E) (w : W E) (jid : String)
      → Memᴰ s a.sockets
      → Safe a
      → get_elem? a.manager.heap s.account ≡ some w
      → w.jid ≡ jid
      → IsUserOf E new_client mapper jid s.sub
  heard-IsUserOf s a w jid here safe held own =
      let (v, found, user) = safe.users s here in
      let same : v ≡ w = some-injective v w (sym found ∙ held) in
      subst (λ j. IsUserOf E new_client mapper j s.sub) (ap (λ x. x.jid) same ∙ own) user

  pub end_socket-IsSafe :
      (s : OpenSocket) (a : App E)
      → Memᴰ s a.sockets
      → Safe a
      → Safe (end_socket E new_client mapper s a)
  unfolding end_socket manager_detach
  end_socket-IsSafe s a here safe =
      fewer-IsSafe _ a.sockets (without s.sub a.sockets) (λ t. without-subset s.sub t a.sockets)
        (at_account-IsSafe E new_client mapper s.account tt (λ w. (tt, detach E s.sub w)) a.manager
          a.sockets safe
          (λ w held.
            Step-IsKeeper E new_client mapper w _ (detaches s.sub w)
              (λ jid h. heard-IsUserOf s a w jid here safe held h.own)))

  after_frame-IsSafe :
      (s : OpenSocket) (r : Result (Unit {0}) × AccountManager E) (a : App E)
      → Memᴰ s a.sockets
      → IsSafe E new_client mapper r.1 a.sockets
      → Safe (after_frame E new_client mapper s r a)
  after_frame-IsSafe s (ok _, m) a here safe = safe
  after_frame-IsSafe s (raise _, m) a here safe =
      end_socket-IsSafe s (record a { manager = m }) here safe

  pub receive_frame-IsSafe :
      (s : OpenSocket) (raw : Json) (a : App E)
      → Memᴰ s a.sockets
      → Safe a
      → Safe (receive_frame E new_client mapper s raw a)
  unfolding receive_frame
  receive_frame-IsSafe s raw a here safe = after_frame-IsSafe s _ a here (
      at_account-IsSafe E new_client mapper s.account (ok tt) (on_frame E s.sub raw) a.manager
        a.sockets safe
        (λ w held.
          Step-IsKeeper E new_client mapper w _ (receives s.sub raw w)
            (λ jid h. heard-IsUserOf s a w jid here safe held h.own)))

  added-IsSafe :
      (s : OpenSocket) (m : AccountManager E) (ss : List OpenSocket)
      → IsSafe E new_client mapper m ss
      → (w : W E) × (get_elem? m.heap s.account ≡ some w) × IsUserOf E new_client mapper w.jid s.sub
      → IsSafe E new_client mapper m (ss ++ s ∷ [])
  added-IsSafe s m ss safe new = record {
    registry = safe.registry;
    own = safe.own;
    users = λ t here. elim (Memᴰ.append_cases ss here) [
      | inl old ↦ safe.users t old
      | inr last ↦ let e = Memᴰ.eq_of_singleton last in rw e new
    ];
  }

  after_open-IsSafe :
      (sub : Subscriber) (r : (ℕ × Result (Unit {0})) × AccountManager E) (a : App E)
      → IsSafe E new_client mapper r.1 a.sockets
      → (w : W E) × (get_elem? r.1.heap r.0.0 ≡ some w) × IsUserOf E new_client mapper w.jid sub
      → Safe (after_open E new_client mapper sub r a)
  after_open-IsSafe sub ((i, ok _), m) a safe new =
      added-IsSafe (record { account = i; sub = sub }) m a.sockets safe new
  after_open-IsSafe sub ((i, raise _), m) a safe new = safe

  opened_as-IsSafe :
      (h : Handshake) (a : App E)
      → ((i : Identity) (ip : String)
          → h ≡ admitted i ip
          → resolve E.python mapper i.username ≡ ok i)
      → Safe a
      → Safe (opened_as E new_client mapper h a)
  opened_as-IsSafe (rejected entry) a known safe = safe
  opened_as-IsSafe (denied entry told) a known safe = safe
  opened_as-IsSafe (admitted i ip) a known safe =
      let sub : Subscriber = record { username = i.username; ip = ip; id = a.next_id } in
      let user : IsUserOf E new_client mapper i.jid sub = (i, known i ip refl, refl) in
      after_open-IsSafe sub (manager_attach E new_client i.jid i.password sub a.manager) _
        (manager_attach-IsSafe E new_client mapper a.sockets i.jid i.password sub a.manager user
          safe)
        (manager_attach-own E new_client mapper a.sockets i.jid i.password sub a.manager user safe)

  pub open_socket-IsSafe :
      (req : Request) (a : App E) → Safe a → Safe (open_socket E new_client mapper req a)
  unfolding open_socket
  open_socket-IsSafe req a safe =
      opened_as-IsSafe (handshake E.config E.python mapper req) a
        (handshake-resolved E.config E.python mapper req) safe
