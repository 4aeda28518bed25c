-- ===== src/Xmpp/Connection/Stale.antt =====
-- What a client keeps of the session before.
use pyconduit.Base.{
  String, string_eq, false, [], ◌∷◌, Option, some, ◌≡◌, ◌≢◌, refl, ap, sym, ◌∙◌, subst, All, arith,
}
use pyconduit.Base.Dict
use pyconduit.Xmpp.Library.{
  Slixmpp, Letters, IqResult, returned, iq_failed, broke, PresenceStanza, disconnected,
  session_start,
}
use pyconduit.Xmpp.Client.{S}
use pyconduit.Xmpp.Presence.{get_or, is_ignored, on_presence, update_of}
use pyconduit.Xmpp.Presence.Replay.{devices, IsSound, on_presence-hear}
use pyconduit.Xmpp.Presence.Shown.{IsShown, on_presence-IsShown}
use pyconduit.Xmpp.Roster.{emit_roster}
use pyconduit.Xmpp.Connection.{
  on_arrival, on_arrivals, on_disconnected, on_session_start, session_started,
}

module _ (X : Slixmpp) (letters : Letters) where
  -- The client after its connection is lost and a new session has started.
  abbrev pub renewed : String → S X → S X
  renewed reason c = (on_arrivals X letters (disconnected reason ∷ session_start ∷ []) c).0

  -- What presence handling reads of a client.
  record SamePresence (c c' : S X) : Type 0 where
    same_bare : c'.bare ≡ c.bare
    same_rooms : c'.joined_rooms ≡ c.joined_rooms
    same_resources : c'.presence_resources ≡ c.presence_resources

  SamePresence-ignored :
      (c c' : S X) (p : PresenceStanza) → SamePresence c c' → is_ignored p c' ≡ is_ignored p c
  unfolding is_ignored
  SamePresence-ignored c c' p same = rw (same.same_bare, same.same_rooms) refl

  session_started-SamePresence :
      (got : IqResult (Unit {0})) (c : S X) → SamePresence c (session_started X got c).0
  unfolding emit_roster
  session_started-SamePresence (broke text) c = record {
    same_bare = refl;
    same_rooms = refl;
    same_resources = refl;
  }
  session_started-SamePresence (returned _) c = record {
    same_bare = refl;
    same_rooms = refl;
    same_resources = refl;
  }
  session_started-SamePresence iq_failed c = record {
    same_bare = refl;
    same_rooms = refl;
    same_resources = refl;
  }

  renewed-SamePresence : (reason : String) (c : S X) → SamePresence c (renewed reason c)
  unfolding on_arrivals on_arrival on_disconnected on_session_start
  renewed-SamePresence reason c =
      let h =
        session_started-SamePresence _
          (record c { connected = false; lib = _; session_failed = _ }) in
      record {
        same_bare = h.same_bare;
        same_rooms = h.same_rooms;
        same_resources = h.same_resources;
      }

  -- A device that was available before the connection was lost still counts after a new session
  -- has started: when another device of its contact leaves, the contact is not shown as offline
  -- but as the most available of devices that this one is among, whether it is there or not.
  pub on_presence-stale :
      (reason : String) (c : S X) (p : PresenceStanza) (device show : String)
      → IsSound c
      → is_ignored p c ≡ false
      → p.type ≡ "unavailable"
      → device ≢ p.sender.resource
      → devices c p.sender.bare device ≡ some show
      → let r = on_presence p (renewed reason c) in
        (devices r.state p.sender.bare device ≡ some show)
        × ((told : String) × (status : Option String) × (r.events
              ≡ update_of p.sender.bare (told, status) ∷ [])
            × IsShown (Dict.values (get_or [] p.sender.bare r.state.presence_resources)) told)
  on_presence-stale reason c p device show sound heard gone other known =
      let c' = renewed reason c in
      let same = renewed-SamePresence reason c in
      let sound' : IsSound c' =
        subst (All (λ e. Dict.UniqueKeys e.1)) (sym same.same_resources) sound in
      let heard' : is_ignored p c' ≡ false = SamePresence-ignored c c' p same ∙ heard in
      let known' : devices c' p.sender.bare device ≡ some show =
        ap (λ d. Dict.get device (get_or [] p.sender.bare d)) same.same_resources ∙ known in
      (
        on_presence-hear p c' p.sender.bare device sound' ∙ ground arith,
        on_presence-IsShown p c' heard',
      )
