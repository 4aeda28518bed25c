-- ===== src/Session/View/Follows.antt =====
-- What an attached tab knows moves with what the account knows, through every coroutine of
-- src/pyconduit/session/account.py.
use pyconduit.Base.{
  String, string_eq, Bool, true, false, ◌==◌, if◌then◌else◌, contains, List, [], ◌∷◌, ◌≡◌, ◌≢◌,
  refl, sym, ap, ◌∙◌, subst, fun_ext, arith, Bool-cases, inl, inr,
}
use pyconduit.Base.Dict
use pyconduit.Base.Dict.{get-put}
use pyconduit.Json.{Json}
use pyconduit.Protocol.Frames.{server_roster}
use pyconduit.Session.World.{Env, W, Subscriber, send, broadcast, subscriber_eq}
use pyconduit.Session.Kept.{Keeps}
use pyconduit.Session.Kept.Frames.{text_at, is_other}
use pyconduit.Session.View.{
  View, see, watch, known, view_of, with_presence, watch-append, see-other, see-roster,
  see-presence,
}
use pyconduit.Session.View.Broadcasts.{broadcast-IsTold}

-- A relation of two views that new contacts and new presence keep, when both have them.
pub record IsClosed (R : View → View → Type 0) : Type 0 where
  pub roster :
      (v k : View) (contacts : Json)
      → R v k
      → R (record v { contacts = contacts }) (record k { contacts = contacts })
  pub presence :
      (v k : View) (jid : String) (frame : Json)
      → R v k
      → R (with_presence jid frame v) (with_presence jid frame k)

module _ (E : Env) (sub : Subscriber) (R : View → View → Type 0) where
  -- The tab is attached, and what it knows is so related to what the account knows.
  pub record Follows (w : W E) : Type 0 where
    pub attached : contains w.subscribers sub ≡ true
    pub related : R (view_of E sub w) (known E w)

module _ (E : Env) (sub : Subscriber) (R : View → View → Type 0)
    (takes : (sent : List (Subscriber × Json)) (frame : Json)
      → E.accepts sent sub frame ≡ true) where
  abbrev F : W E → Type 0
  F w = Follows E sub R w

  -- A broadcast after the account has learnt what its frame says.
  told-Follows :
      (frame : Json) (w : W E)
      → contains w.subscribers sub ≡ true
      → R (see (view_of E sub w) frame) (known E w)
      → F (broadcast E frame w)
  told-Follows frame w h r =
      let t = broadcast-IsTold E sub takes frame w h in
      record {
        attached = t.stays ∙ h;
        related =
            subst (λ v. R v (known E (broadcast E frame w))) (sym t.view)
              (subst (R _) (sym t.same) r);
      }

  pub spread-Follows :
      (frame : Json) → is_other frame ≡ true → (w : W E) → F w → F (broadcast E frame w)
  spread-Follows frame other w h =
      told-Follows frame w h.attached
        (subst (λ v. R v (known E w)) (sym (see-other (view_of E sub w) frame other)) h.related)

  -- A frame to one tab.
  send-Follows :
      (s : Subscriber) (frame : Json)
      → ((v : View) → (if sub == s then see v frame else v) ≡ v)
      → Keeps F (send E s frame)
  unfolding send watch
  send-Follows s frame unseen = record {
    at = λ w h. elim (Bool-cases (E.accepts w.sent s frame)) [
      | inl taken ↦ rw taken (record {
        attached = h.attached;
        related =
            subst (λ v. R v (known E w))
              (sym (watch-append sub _ w.sent ((s, frame) ∷ []) ∙ unseen (view_of E sub w)))
              h.related;
      })
      | inr dead ↦ rw dead h
    ];
  }

  either_way : (b : Bool) (v v' : View) → v' ≡ v → (if b then v' else v) ≡ v
  either_way true v v' e = e
  either_way false v v' e = refl

  pub send_other-Follows :
      (s : Subscriber) (frame : Json) → is_other frame ≡ true → Keeps F (send E s frame)
  send_other-Follows s frame other =
      send-Follows s frame (λ v. either_way (sub == s) v _ (see-other v frame other))

  pub send_apart-Follows : (s : Subscriber) (frame : Json) → s ≢ sub → Keeps F (send E s frame)
  send_apart-Follows s frame apart =
      let differs : (sub == s) ≡ false = ground arith in send-Follows s frame (λ v. rw differs refl)

  module _ (closed : IsClosed R) where
    known-put :
        (jid : String) (frame : Json) (w : W E)
        → known E (record w { presence = Dict.put jid frame w.presence })
          ≡ with_presence jid frame (known E w)
    known-put jid frame w =
        ap (λ p. record (known E w) { presence = p }) (fun_ext λ j. get-put j jid frame w.presence)

    pub presence-Follows :
        (jid : String) (frame : Json) (w : W E)
        → text_at "type" frame ≡ "presence"
        → text_at "jid" frame ≡ jid
        → F w
        → F (broadcast E frame (record w { presence = Dict.put jid frame w.presence }))
    presence-Follows jid frame w is of_jid h =
        told-Follows frame (record w { presence = Dict.put jid frame w.presence }) h.attached
          (subst (λ v. R v (known E (record w { presence = Dict.put jid frame w.presence })))
            (sym (
              see-presence (view_of E sub w) frame is
              ∙ ap (λ j. with_presence j frame (view_of E sub w)) of_jid))
            (subst (R _) (sym (known-put jid frame w))
              (closed.presence (view_of E sub w) (known E w) jid frame h.related)))

    pub roster-Follows :
        (contacts : List Json) (w : W E)
        → F w
        → F (broadcast E (server_roster contacts) (record w { roster = contacts }))
    roster-Follows contacts w h =
        told-Follows (server_roster contacts) (record w { roster = contacts }) h.attached
          (subst (λ v. R v (known E (record w { roster = contacts })))
            (sym (see-roster (view_of E sub w) contacts))
            (closed.roster (view_of E sub w) (known E w) _ h.related))
