-- ===== src/Socket/Endings.antt =====
-- What a socket of web/ws.py leaves behind.
use pyconduit.Base.{
  ℕ, String, string_eq, Bool, true, false, List, [], ◌∷◌, contains, ◌≡◌, ◌≢◌, refl, arith,
}
use pyconduit.Errors.{Result, ok, raise, send_error}
use pyconduit.Auth.{Identity, AuthMapper}
use pyconduit.Session.World.{
  Env, W, Subscriber, send, subscriber_eq, discard, cancel_idle, log, start_idle_timer,
}
use pyconduit.Session.Account.{attach, detach, ensure_connected, snapshot, ready_frame, send_all}
use pyconduit.Session.Broadcast.{contains-add, Distinct}
use pyconduit.Session.Invariant.{Inv}
use pyconduit.Session.Invariant.Coroutines.{detach-Inv}
use pyconduit.Session.Manager.{AccountManager}
use pyconduit.Session.Manager.Registry.{
  IsRegistry, manager_attach-IsRegistry, at_account-IsRegistry,
}
use pyconduit.Socket.{
  Request, Handshake, admitted, rejected, denied, handshake, Server, handle_ws, after_attach,
  after_handshake,
}
use pyconduit.Socket.Pump.{Received, serve}
use pyconduit.Socket.Reading.{pump-Inv}

discard-gone :
    (s : Subscriber) (xs : List Subscriber) → Distinct xs → contains (discard s xs) s ≡ false
unfolding discard
discard-gone s [] d = refl
discard-gone s (x ∷ xs) d = ground (arith, discard-gone s xs)

module _ (E : Env) (sub : Subscriber) where
  detach-gone :
      (w : W E) → Distinct w.subscribers → contains (detach E sub w).subscribers sub ≡ false
  unfolding detach log start_idle_timer
  detach-gone w d = ground (arith, discard-gone sub w.subscribers)

  -- However a socket's loop ends, by the socket closing, a text that is no JSON or whatever a frame
  -- raises, its tab is attached no more after it, where the account's invariant held before.
  pub serve-detached :
      (owner : String) (shut : Bool) (received : List Received) (w : W E)
      → Inv E owner shut w
      → contains (serve E sub received w).subscribers sub ≡ false
  unfolding serve
  serve-detached owner shut received w h =
      detach-gone _ (pump-Inv E sub owner shut received w h).distinct

  serve-Inv :
      (owner : String) (shut : Bool) (received : List Received) (w : W E)
      → Inv E owner shut w
      → Inv E owner shut (serve E sub received w)
  unfolding serve
  serve-Inv owner shut received w h =
      detach-Inv E owner shut sub _ (pump-Inv E sub owner shut received w h)

module _ (E : Env) (sub : Subscriber) where
  -- A new tab of a connected account whose first frame cannot be sent stays attached although its
  -- `attach` raises.
  pub attach-keeps_failed :
      (w : W E)
      → E.xmpp.is_connected w.client ≡ true
      → E.accepts w.sent sub (ready_frame E sub.username w) ≡ false
      → ((attach E sub w).0 ≡ raise send_error)
        × (contains (attach E sub w).1.subscribers sub ≡ true)
  unfolding attach cancel_idle ensure_connected snapshot send_all send
  attach-keeps_failed w up refused = rw (up, refused) (refl, contains-add sub w.subscribers)

module _ (E : Env) (new_client : String → String → E.xmpp.State) (mapper : AuthMapper) where
  after_attach-IsRegistry :
      (sub : Subscriber) (received : List Received) (r : (ℕ × Result (Unit {0})) × AccountManager E)
      → IsRegistry E r.1
      → IsRegistry E (after_attach E new_client mapper sub received r)
  after_attach-IsRegistry sub received ((i, ok _), m) q =
      at_account-IsRegistry E new_client i tt _ m
        (λ owner w _ (shut, h). (shut, serve-Inv E sub owner shut received w h)) q
  after_attach-IsRegistry sub received ((i, raise _), m) q = q

  -- A whole socket, refused or admitted, and whatever it sends, leaves the registry sound.
  pub handle_ws-IsRegistry :
      (req : Request) (id : ℕ) (received : List Received) (s : Server E)
      → IsRegistry E s.manager
      → IsRegistry E (handle_ws E new_client mapper req id received s).manager
  unfolding handle_ws
  handle_ws-IsRegistry req id received s q = go (handshake E.config E.python mapper req)
    where
      go :
          (h : Handshake)
          → IsRegistry E (after_handshake E new_client mapper id received s h).manager
      go (rejected entry) = q
      go (denied entry told) = q
      go (admitted i ip) =
          after_attach-IsRegistry _ received _
            (manager_attach-IsRegistry E new_client i.jid i.password _ s.manager q)

  -- A socket that is not admitted touches no account.
  handle_ws-refused :
      (req : Request) (id : ℕ) (received : List Received) (s : Server E)
      → ((i : Identity) (ip : String) → handshake E.config E.python mapper req ≢ admitted i ip)
      → (handle_ws E new_client mapper req id received s).manager ≡ s.manager
  unfolding handle_ws
  handle_ws-refused req id received s refused = go (handshake E.config E.python mapper req) refused
    where
      go :
          (h : Handshake)
          → ((i : Identity) (ip : String) → h ≢ admitted i ip)
          → (after_handshake E new_client mapper id received s h).manager ≡ s.manager
      go (rejected entry) n = refl
      go (denied entry told) n = refl
      go (admitted i ip) n = absurd (n i ip refl)
