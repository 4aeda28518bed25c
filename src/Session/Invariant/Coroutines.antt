-- ===== src/Session/Invariant/Coroutines.antt =====
-- The coroutines keep the invariant of the account.
use pyconduit.Base.{String, Bool, List, [], ◌∷◌, arith}
use pyconduit.Json.{Json}
use pyconduit.Protocol.{ClientMessage}
use pyconduit.Interface.{Notice, Event, Reply}
use pyconduit.Session.World.{Env, W, Subscriber, no_timer, cancel_idle, start_idle_timer, add}
use pyconduit.Session.Events.{call, on_event, connect}
use pyconduit.Session.Account.{send_all, attach, detach, start_if_empty}
use pyconduit.Session.Broadcast.{add-Distinct}
use pyconduit.Session.Dispatch.{handle_command}
use pyconduit.Session.Kept.{Keeps, Keeps-then, Keeps-run, Rules}
use pyconduit.Session.Kept.Calls.{
  moved_call-Keeps, on_event-Keeps, connect-Keeps, ensure_connected-Keeps,
}
use pyconduit.Session.Kept.Commands.{handle_command-Keeps}
use pyconduit.Session.Invariant.{
  Inv, send-Inv, broadcast-Inv, on_notice-Inv, client-Inv, log-Inv, schedule_reconnect-Inv,
  dropped-Inv,
}
use pyconduit.Session.Invariant.Rooms.{remember_room-Inv, forget_room-Inv, forget_occupants-Inv}

module _ (E : Env) (owner : String) (shut : Bool) where
  pub Inv-rules : Rules E (Inv E owner shut)
  Inv-rules = record {
    spreads = λ frame _. broadcast-Inv E owner shut frame;
    notices = on_notice-Inv E owner shut;
    requests = λ _ w. client-Inv E owner shut _ w;
    logs = log-Inv E owner shut;
    schedules = schedule_reconnect-Inv E owner shut;
    joins = remember_room-Inv E owner shut;
    leaves = forget_room-Inv E owner shut;
    empties = forget_occupants-Inv E owner shut;
  }

  pub call-Inv :
      {A : Type 0} (op : E.xmpp.State → Reply Notice E.xmpp.State A)
      → Keeps (Inv E owner shut) (call E op)
  call-Inv op = moved_call-Keeps Inv-rules (client-Inv E owner shut) op

  pub on_event-Inv : (e : Event) → Keeps (Inv E owner shut) (on_event E e)
  on_event-Inv e = on_event-Keeps Inv-rules e

  pub connect-Inv : Keeps (Inv E owner shut) (connect E)
  connect-Inv = connect-Keeps Inv-rules (client-Inv E owner shut)

  -- Whatever a tab asks for, and whether the handler returns or raises.
  pub handle_command-Inv :
      (sub : Subscriber) (msg : ClientMessage) (w : W E)
      → Inv E owner shut w
      → Inv E owner shut (handle_command E sub msg w).1
  handle_command-Inv sub msg w h =
      handle_command-Keeps Inv-rules sub (λ frame _. send-Inv E owner shut sub frame) msg w h

  send_all-Inv :
      (s : Subscriber) (frames : List Json) → Keeps (Inv E owner shut) (send_all E s frames)
  unfolding send_all
  send_all-Inv s [] = record { at = λ w h. h }
  send_all-Inv s (frame ∷ frames) =
      let rest = send_all-Inv s frames in
      record { at = λ w h. (Keeps-then (send-Inv E owner shut s frame) rest).at w h }

  pub added-Inv :
      (s : Subscriber) (w : W E)
      → Inv E owner shut w
      → Inv E owner shut (record w { subscribers = add s w.subscribers; idle_task = no_timer })
  added-Inv s w h = ground (arith, add-Distinct s w.subscribers h.distinct)

  pub attach-Inv : (s : Subscriber) → Keeps (Inv E owner shut) (attach E s)
  unfolding attach cancel_idle
  attach-Inv s = record {
    at = λ w h.
        (Keeps-then (send_all-Inv s _) (Keeps-run _ (λ w' q. log-Inv E owner shut _ w' q))).at _
          (ensure_connected-Keeps Inv-rules (client-Inv E owner shut) _ (added-Inv s w h));
  }

  started-Inv : (w : W E) → Inv E owner shut w → Inv E owner shut (start_if_empty E w)
  unfolding start_idle_timer
  started-Inv w h = ground arith

  pub detach-Inv : (s : Subscriber) (w : W E) → Inv E owner shut w → Inv E owner shut (detach E s w)
  unfolding detach start_idle_timer
  detach-Inv s w h = started-Inv _ (log-Inv E owner shut _ _ (dropped-Inv E owner shut s w h))
