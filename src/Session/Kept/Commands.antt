-- ===== src/Session/Kept/Commands.antt =====
-- The commands of a tab.
use native.Mathlib.Decide.{ℕ_discrete}
use pyconduit.Base.{
  ℕ, nat_eq, if◌then◌else◌, Option-cases, String, string_eq, Bool, true, false, List, [], ◌∷◌, inl,
  inr, Option, none, some, arith, ◌≡◌, refl,
}
use Prim.Native.String.{◌++◌}
use pyconduit.Protocol.Frames.{server_error}
use pyconduit.Json.{Json, null, json_eq, len}
use pyconduit.Errors.{Result, ok, raise}
use pyconduit.Protocol.{ClientMessage, require}
use pyconduit.Session.World.{Env, W, Subscriber, Action, ◌>>=◌, lift, send}
use pyconduit.Session.Commands.{
  too_long, cmd_send_message, cmd_load_history, cmd_set_presence, cmd_add_contact,
  cmd_remove_contact, cmd_subscription, cmd_join_room, cmd_leave_room, cmd_send_muc,
  room_domain_allowed, echo, unless_too_long, join_allowed, report_muc, datum, nick_or_local,
  room_text,
}
use pyconduit.Session.Commands.Disco.{cmd_disco_servers, discover}
use pyconduit.Session.Dispatch.{
  Handler, send_message, load_history, set_presence, add_contact, remove_contact, subscription,
  join_room, leave_room, send_muc, disco_servers, handler_of, run_handler, handle_command,
}
use pyconduit.Session.Kept.{
  Keeps, Keeps-bind, Keeps-bind-lift, Keeps-then, Keeps-lift, Keeps-gets, Keeps-pure, Keeps-run,
  Keeps-attempt, IsAllowed, IsSendable, Rules, Answers, asks_message, asks_presence, asks_history,
  asks_contact, asks_removal, asks_subscription, asks_room, asks_leave, asks_muc, asks_rooms,
}
use pyconduit.Session.Kept.Calls.{call-Keeps}
use pyconduit.Session.Kept.Frames.{
  is_other, server_error-other, server_message-other, server_history-other, server_muc_left-other,
  server_disco_servers-other,
}

module _ {E : Env} {P : W E → Type 0} (r : Rules E P) where
  discover-Keeps : (ss : List String) → Keeps P (discover E ss)
  unfolding discover
  discover-Keeps [] = Keeps-pure []
  discover-Keeps (s ∷ ss) =
      Keeps-bind (Keeps-attempt (call-Keeps r _ (asks_rooms _)))
        λ res. Keeps-bind (discover-Keeps ss) λ rest. Keeps-pure (res ∷ rest)

abbrev length_of : Option ℕ → ℕ
length_of none = 0
length_of (some n) = n

-- The refusal of `_too_long` is an error frame.
too_long-other :
    (E : Env) (body conversation err : Json)
    → too_long E body conversation ≡ ok (some err)
    → is_other err ≡ true
unfolding too_long
too_long-other E body conversation err e =
    let shape : err
        ≡ server_error "delivery"
            ("Message too long ("
              ++ (E.python.digits (length_of (len body))
                  ++ ("/"
                      ++ (E.python.digits E.config.server.max_message_chars ++ " characters)."))))
            conversation =
      ground arith in
    rw shape (server_error-other _ _ _)

-- What it does not refuse is let through.
too_long-IsSendable :
    (E : Env) (body conversation : Json)
    → too_long E body conversation ≡ ok none
    → IsSendable E body
unfolding too_long
too_long-IsSendable E body conversation e = elim (ℕ_discrete E.config.server.max_message_chars 0) [
  | yes unlimited ↦ inl unlimited
  | no limited ↦ elim (Option-cases (len body)) [
    | inl unsized ↦ absurd (ground (arith, unsized))
    | inr (n, sized) ↦ inr (n, sized, ground (arith, sized))
  ]
]

module _ {E : Env} {P : W E → Type 0} (r : Rules E P) (sub : Subscriber) (answers : Answers E P sub)
    (msg : ClientMessage) where
  unless_too_long-Keeps :
      (body conversation : Json) (go : Action (W E) (Unit {0}))
      → (IsSendable E body → Keeps P go)
      → Keeps P (lift (too_long E body conversation) >>= λ err. unless_too_long E sub msg err go)
  unless_too_long-Keeps body conversation go k =
      Keeps-bind-lift (too_long E body conversation) _ λ o e. within o e
    where
      within :
          (o : Option Json)
          → too_long E body conversation ≡ ok o
          → Keeps P (unless_too_long E sub msg o go)
      within none e = k (too_long-IsSendable E body conversation e)
      within (some err) e = answers err (too_long-other E body conversation err e)

  echo-Keeps : (a : Result String) → Keeps P (echo E sub msg a)
  echo-Keeps (ok _) = record { at = λ w h. r.spreads _ (server_message-other _ _ _ _ _ _ _) w h }
  echo-Keeps (raise e) = record { at = (answers _ (server_error-other _ _ _)).at }

  cmd_send_message-Keeps : Keeps P (cmd_send_message E sub msg)
  unfolding cmd_send_message
  cmd_send_message-Keeps = Keeps-then (Keeps-lift _) (
      unless_too_long-Keeps _ _ _ (λ sendable.
        Keeps-bind (Keeps-attempt (call-Keeps r _ (asks_message _ _ sendable))) echo-Keeps))

  cmd_load_history-Keeps : Keeps P (cmd_load_history E sub msg)
  unfolding cmd_load_history
  cmd_load_history-Keeps = Keeps-then (Keeps-lift _) (
      Keeps-bind (call-Keeps r _ (asks_history _ _ _))
        λ page. Keeps-bind (Keeps-gets (λ w. w.jid)) λ jid. answers _ (server_history-other _ _ _))

  cmd_set_presence-Keeps : Keeps P (cmd_set_presence E sub msg)
  unfolding cmd_set_presence
  cmd_set_presence-Keeps = call-Keeps r _ (asks_presence _ _)

  cmd_add_contact-Keeps : Keeps P (cmd_add_contact E sub msg)
  unfolding cmd_add_contact
  cmd_add_contact-Keeps = Keeps-then (Keeps-lift _) (call-Keeps r _ (asks_contact _ _))

  cmd_remove_contact-Keeps : Keeps P (cmd_remove_contact E sub msg)
  unfolding cmd_remove_contact
  cmd_remove_contact-Keeps = Keeps-then (Keeps-lift _) (call-Keeps r _ (asks_removal _))

  cmd_subscription-Keeps : Keeps P (cmd_subscription E sub msg)
  unfolding cmd_subscription
  cmd_subscription-Keeps = Keeps-then (Keeps-lift _) (call-Keeps r _ (asks_subscription _ _))

  join_allowed-Keeps : (room : Json) → IsAllowed E room → Keeps P (join_allowed E sub msg room)
  join_allowed-Keeps room a = Keeps-bind (Keeps-gets (λ w. nick_or_local E sub msg w.jid)) λ nick.
      Keeps-then (r.joins room nick a)
        (call-Keeps r (E.xmpp.join_room room nick) (asks_room room nick))

  allowed_or_refused-Keeps :
      (room refusal : Json) (a : Result Bool)
      → is_other refusal ≡ true
      → room_domain_allowed E room ≡ a
      → Keeps P (
          lift a >>= λ allowed.
          (if allowed then join_allowed E sub msg room else send E sub refusal))
  allowed_or_refused-Keeps room refusal (ok true) o e = record {
    at = (join_allowed-Keeps room e).at;
  }
  allowed_or_refused-Keeps room refusal (ok false) o e = record { at = (answers refusal o).at }
  allowed_or_refused-Keeps room refusal (raise _) o e = record { at = λ w h. h }

  cmd_join_room-Keeps : Keeps P (cmd_join_room E sub msg)
  unfolding cmd_join_room
  cmd_join_room-Keeps = Keeps-then (Keeps-lift (require msg ("room" ∷ []))) (
      allowed_or_refused-Keeps room refusal (room_domain_allowed E room) (server_error-other _ _ _)
        refl)
    where
      room : Json
      room = datum E sub msg "room"

      refusal : Json
      refusal = server_error "muc" ("Room server not allowed: " ++ room_text E sub msg room) null

  cmd_leave_room-Keeps : Keeps P (cmd_leave_room E sub msg)
  unfolding cmd_leave_room
  cmd_leave_room-Keeps = Keeps-then (Keeps-lift _) (
      Keeps-then (r.leaves _) (
        Keeps-then (r.empties _) (
          Keeps-then (call-Keeps r _ (asks_leave _))
            (Keeps-run _ (r.spreads _ (server_muc_left-other _))))))

  report_muc-Keeps : (a : Result String) → Keeps P (report_muc E sub msg a)
  report_muc-Keeps (ok _) = record { at = λ w h. h }
  report_muc-Keeps (raise e) = record { at = (answers _ (server_error-other _ _ _)).at }

  cmd_send_muc-Keeps : Keeps P (cmd_send_muc E sub msg)
  unfolding cmd_send_muc
  cmd_send_muc-Keeps = Keeps-then (Keeps-lift _) (
      unless_too_long-Keeps _ _ _ (λ sendable.
        Keeps-bind (Keeps-attempt (call-Keeps r _ (asks_muc _ _ sendable))) report_muc-Keeps))

  cmd_disco_servers-Keeps : Keeps P (cmd_disco_servers E sub)
  unfolding cmd_disco_servers
  cmd_disco_servers-Keeps =
      Keeps-bind (discover-Keeps r _) λ results. answers _ (server_disco_servers-other _)

  run_handler-Keeps : (h : Handler) → Keeps P (run_handler E sub msg h)
  unfolding run_handler
  run_handler-Keeps send_message = cmd_send_message-Keeps
  run_handler-Keeps load_history = cmd_load_history-Keeps
  run_handler-Keeps set_presence = cmd_set_presence-Keeps
  run_handler-Keeps add_contact = cmd_add_contact-Keeps
  run_handler-Keeps remove_contact = cmd_remove_contact-Keeps
  run_handler-Keeps subscription = cmd_subscription-Keeps
  run_handler-Keeps join_room = cmd_join_room-Keeps
  run_handler-Keeps leave_room = cmd_leave_room-Keeps
  run_handler-Keeps send_muc = cmd_send_muc-Keeps
  run_handler-Keeps disco_servers = cmd_disco_servers-Keeps

  -- Whatever a tab asks for, and whether the handler returns or raises.
  pub handle_command-Keeps : (w : W E) → P w → P (handle_command E sub msg w).1
  unfolding handle_command
  handle_command-Keeps w h = elim (Option-cases (handler_of msg.type)) [
    | inl unknown ↦ rw (unknown, handle_command) ((answers _ (server_error-other _ _ _)).at w h)
    | inr (command, e) ↦ rw (e, handle_command) ((run_handler-Keeps command).at w h)
  ]
