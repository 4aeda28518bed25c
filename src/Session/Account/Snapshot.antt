-- ===== src/Session/Account/Snapshot.antt =====
-- What a tab is sent when it attaches.
use pyconduit.Base.{true, List, [], ◌∷◌, ◌++◌, map, length, ◌≡◌, refl, sym, ap, ◌∙◌, ◌↔◌}
use mathlib.Core.List.{append_assoc, append-nil}
use mathlib.Core.List.Memᴰ.{Memᴰ}
use pyconduit.Json.{Json}
use pyconduit.Errors.{ok}
use pyconduit.Session.World.{
  Env, W, Subscriber, send, add, cancel_idle, no_timer, log, session_open,
}
use pyconduit.Session.Account.{attach, ensure_connected, snapshot, send_all}
use pyconduit.Session.Account.Frames.{greeting, IsOfSnapshot, snapshot-frames}

module _ (E : Env) (sub : Subscriber)
    (takes : (sent : List (Subscriber × Json)) (frame : Json)
      → E.accepts sent sub frame ≡ true) where
  unfoldable pub to_tab : List Json → List (Subscriber × Json)
  to_tab frames = map (λ frame. (sub, frame)) frames

  send-returns :
      (frame : Json) (w : W E)
      → send E sub frame w ≡ (ok tt, record w { sent = w.sent ++ (sub, frame) ∷ [] })
  unfolding send
  send-returns frame w = rw (takes w.sent frame) refl

  pub send_all-returns :
      (frames : List Json) (w : W E)
      → send_all E sub frames w ≡ (ok tt, record w { sent = w.sent ++ to_tab frames })
  unfolding send_all to_tab
  send_all-returns [] w = ap (λ s. (ok tt, record w { sent = s })) (sym (append-nil w.sent))
  send_all-returns (frame ∷ frames) w = rw (send-returns frame w) (
      send_all-returns frames (record w { sent = w.sent ++ (sub, frame) ∷ [] })
      ∙ ap (λ s. (ok tt, record w { sent = s }))
          (append_assoc w.sent ((sub, frame) ∷ []) (to_tab frames)))

  -- On a connected account nothing stops it.
  pub attach-returns :
      (w : W E)
      → E.xmpp.is_connected w.client ≡ true
      → attach E sub w ≡ (
        ok tt,
        record w {
          subscribers = add sub w.subscribers;
          idle_task = no_timer;
          sent = w.sent ++ map (λ frame. (sub, frame)) (snapshot E sub.username w);
          audit =
              w.audit
              ++ session_open sub.username w.jid sub.ip (length (add sub w.subscribers)) ∷ [];
        },
      )
  unfolding attach ensure_connected cancel_idle log to_tab snapshot
  attach-returns w up = rw (up, send_all-returns) refl

  -- A tab that takes every frame and attaches to a connected account is sent the greeting first, and
  -- then the contacts if there are any, each presence that the account keeps, and for each joined
  -- room that it is joined, with its occupants where some are known; it is sent no other frame, and
  -- no other tab is sent anything. It joins the set of tabs, the idle countdown is off, and its
  -- session is logged with the number of tabs; nothing else changes.
  pub attach-snapshot :
      (w : W E)
      → E.xmpp.is_connected w.client ≡ true
      → (frames : List Json) × (attach E sub w ≡ (
        ok tt,
        record w {
          subscribers = add sub w.subscribers;
          idle_task = no_timer;
          sent = w.sent ++ map (λ frame. (sub, frame)) frames;
          audit =
              w.audit
              ++ session_open sub.username w.jid sub.ip (length (add sub w.subscribers)) ∷ [];
        },
      ))
        × ((rest : List Json) × (frames ≡ greeting E sub.username w ∷ rest))
        × ((frame : Json) → Memᴰ frame frames ↔ IsOfSnapshot E sub.username w frame)
  attach-snapshot w up =
      let (first, members) = snapshot-frames E sub.username w in
      (snapshot E sub.username w, attach-returns w up, first, members)
