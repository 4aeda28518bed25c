-- ===== src/Live/Contacts.antt =====
-- What a tab knows of a contact whose stanza has arrived.
use pyconduit.Base.{
  String, string_eq, true, false, List, [], ◌∷◌, Option, some, ◌≡◌, ◌≢◌, refl, ap, ◌∙◌, Bool-cases,
  inl, inr, All, arith,
}
use pyconduit.Base.Dict
use pyconduit.Base.Dict.{Dict}
use pyconduit.Json.{Json}
use pyconduit.Protocol.Frames.{server_presence}
use pyconduit.Interface.{notice}
use pyconduit.Xmpp.Library.{Slixmpp, Letters, PresenceStanza, presence_stanza}
use pyconduit.Xmpp.Client.{S}
use pyconduit.Xmpp.Connection.{on_arrival}
use pyconduit.Xmpp.Presence.{get_or, is_ignored, on_presence, update_of}
use pyconduit.Xmpp.Presence.Shown.{IsShown, on_presence-IsShown}
use pyconduit.Session.World.{Env, W, Subscriber, broadcast, send_to, send_or_drop}
use pyconduit.Session.Events.{on_notice, on_event, on_events}
use pyconduit.Session.Account.{attach}
use pyconduit.Session.Rejoin.{on_notice-IsAside}
use pyconduit.Session.History.{Step, Reach, init}
use pyconduit.Session.View.{view_of}
use pyconduit.Session.View.Sync.{Meanwhile, then_next, view_of-refines}
use pyconduit.Live.{over, arrives}

module _ (E : Env) where
  send_to-presence :
      (ss : List Subscriber) (frame : Json) (w : W E) → (send_to E ss frame w).presence ≡ w.presence
  unfolding send_to send_or_drop
  send_to-presence [] frame w = refl
  send_to-presence (s ∷ ss) frame w =
      send_to-presence ss frame (send_or_drop E s frame w)
      ∙ elim (Bool-cases (E.accepts w.sent s frame)) [
        | inl taken ↦ rw taken refl
        | inr dead ↦ rw dead refl
      ]

  -- An update is filed under its address.
  on_notice-presence :
      (jid show : String) (status : Option String) (w : W E)
      → Dict.get jid (on_notice E (update_of jid (show, status)) w).presence
        ≡ some (server_presence jid show status)
  unfolding on_notice broadcast
  on_notice-presence jid show status w =
      let frame = server_presence jid show status in
      rw
        (send_to-presence w.subscribers frame
          (record w { presence = Dict.put jid frame w.presence }))
        (ground (arith, Dict.get-put jid jid frame w.presence))

module _ (X : Slixmpp) (letters : Letters) (E : Env) where
  abbrev Account : Type 0
  Account = W (over X letters E)

  arrives-on_notice :
      (p : PresenceStanza) (show : String) (status : Option String) (w : Account)
      → (on_presence p w.client).events ≡ update_of p.sender.bare (show, status) ∷ []
      → arrives X letters E (presence_stanza p) w
        ≡ on_notice
            (over X letters E)
            (update_of p.sender.bare (show, status))
            (record w { client = (on_presence p w.client).state })
  unfolding arrives on_arrival on_events on_event
  arrives-on_notice p show status w told = rw told refl

  module _ (sub : Subscriber)
      (takes : (sent : List (Subscriber × Json)) (frame : Json)
        → E.accepts sent sub frame ≡ true) where
    -- A tab that takes every frame and attached to an account with any history, and what has
    -- happened since: once a contact's stanza arrives, the tab knows the contact as available as the
    -- most available of its devices that the client has heard of, and as offline when there is none.
    pub arrives-IsShown :
        (p : PresenceStanza) (owner password : String) (c : S X) (w w' : Account)
        → Reach (over X letters E) (init (over X letters E) owner password c) w
        → All (λ e. e.0 ≢ sub) w.sent
        → Meanwhile (over X letters E) sub (attach (over X letters E) sub w).1 w'
        → is_ignored p w'.client ≡ false
        → let w'' = arrives X letters E (presence_stanza p) w' in
          (show : String) × (status : Option String) × ((view_of
                (over X letters E)
                sub
                w'').presence
              p.sender.bare
            ≡ some (server_presence p.sender.bare show status))
          × IsShown (Dict.values (get_or [] p.sender.bare w''.client.presence_resources)) show
    unfolding on_event
    arrives-IsShown p owner password c w w' past fresh later heard =
        let (show, status, told, shown) = on_presence-IsShown p w'.client heard in
        let bare = p.sender.bare in
        let c' = (on_presence p w'.client).state in
        let moved = record w' { client = c' } in
        let same = arrives-on_notice p show status w' told in
        let aside =
          on_notice-IsAside (over X letters E) c' w'.joined_rooms (update_of bare (show, status))
            moved (record { client = refl; joined = refl }) in
        let known_now =
          view_of-refines (over X letters E) sub takes owner password c w _ past fresh (
            then_next (then_next later (Step.moves c' w') tt)
              (Step.happens (notice (update_of bare (show, status))) moved) tt) in
        (
          show,
          status,
          ap (λ a. (view_of (over X letters E) sub a).presence bare) same
              ∙ ap (λ v. v.presence bare) known_now
              ∙ on_notice-presence (over X letters E) bare show status moved,
          rw same (rw aside.client shown),
        )
