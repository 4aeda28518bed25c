-- ===== src/Xmpp/Presence/Replay.antt =====
-- The presence dicts against a plain record of what each device said last.
use pyconduit.Base.{
  String, string_eq, ◌==◌, Bool, true, false, ◌&&◌, if◌then◌else◌, List, [], ◌∷◌, Option, none,
  some, ◌≡◌, refl, ◌∙◌, sym, ap, subst, fun_ext, All, Bool-cases, Option-cases, inl, inr, arith,
}
use pyconduit.Base.Dict
use pyconduit.Base.Dict.{Dict, UniqueKeys, get-put, get-pop, put-UniqueKeys, pop-UniqueKeys}
use pyconduit.Xmpp.Library.{PresenceStanza}
use pyconduit.Xmpp.Client.{Client}
use pyconduit.Xmpp.Presence.{
  get_or, normal_show, is_ignored, resources_after, note_presence, on_presence,
}

-- What is known of each address and device: nothing, or how available it is.
abbrev pub Devices : Type 0
Devices = String → String → Option String

-- The record after a stanza of a contact: only the device that sent it changes.
abbrev pub hear : PresenceStanza → Devices → Devices
hear p f b r =
    if (b == p.sender.bare) && (r == p.sender.resource)
    then (if p.type == "unavailable" then none else some (normal_show p.show))
    else f b r

module _ {L : Type 0} where
  -- The stanzas in turn, without those that are the account's own or a room's.
  abbrev pub replay : Client L → List PresenceStanza → Devices → Devices
  replay c [] f = f
  replay c (p ∷ ps) f = replay c ps (if is_ignored p c then f else hear p f)

  -- The handler on each stanza in turn.
  unfoldable pub on_presences : List PresenceStanza → Client L → Client L
  on_presences [] c = c
  on_presences (p ∷ ps) c = on_presences ps (on_presence p c).state

  -- What the client's dicts say.
  abbrev pub devices : Client L → Devices
  devices c b r = Dict.get r (get_or [] b c.presence_resources)

  -- Each contact's dict has each device once.
  abbrev pub IsSound : Client L → Type 0
  IsSound c = All (λ e. UniqueKeys e.1) c.presence_resources

get-All :
    (P : Dict String String → Type 0) (b : String) (rs : Dict String String)
    (d : Dict String (Dict String String))
    → Dict.get b d ≡ some rs
    → All (λ e. P e.1) d
    → P rs
unfolding Dict.get
get-All P b rs [] found h = absurd (cc)
get-All P b rs ((k, v) ∷ d) found h = elim (string_eq.dec b k) [
  | yes same ↦ let e : v ≡ rs = ground arith in subst P e h.0
  | no other ↦ get-All P b rs d (ground arith) h.1
]

get_or-UniqueKeys :
    (b : String) (d : Dict String (Dict String String))
    → All (λ e. UniqueKeys e.1) d
    → UniqueKeys (get_or [] b d)
get_or-UniqueKeys b d h = elim (Option-cases (Dict.get b d)) [
  | inl absent ↦ rw (absent, get_or) tt
  | inr (rs, found) ↦ rw (found, get_or) (get-All UniqueKeys b rs d found h)
]

put-All :
    (b : String) (rs : Dict String String) (d : Dict String (Dict String String))
    → UniqueKeys rs
    → All (λ e. UniqueKeys e.1) d
    → All (λ e. UniqueKeys e.1) (Dict.put b rs d)
unfolding Dict.put
put-All b rs [] u h = (u, tt)
put-All b rs ((k, v) ∷ d) u h = elim (Bool-cases (b == k)) [
  | inl same ↦ rw same (u, h.1)
  | inr other ↦ rw other (h.0, put-All b rs d u h.1)
]

resources_after-UniqueKeys :
    (p : PresenceStanza) (rs : Dict String String)
    → UniqueKeys rs
    → UniqueKeys (resources_after p rs)
unfolding resources_after
resources_after-UniqueKeys p rs u = elim (Bool-cases (p.type == "unavailable")) [
  | inl gone ↦ rw gone (pop-UniqueKeys p.sender.resource rs u)
  | inr here ↦ rw here (put-UniqueKeys p.sender.resource (normal_show p.show) rs u)
]

get-resources_after :
    (p : PresenceStanza) (rs : Dict String String) (r : String)
    → UniqueKeys rs
    → Dict.get r (resources_after p rs) ≡ (
        if r == p.sender.resource
        then (if p.type == "unavailable" then none else some (normal_show p.show))
        else Dict.get r rs)
unfolding resources_after
get-resources_after p rs r u = elim (Bool-cases (p.type == "unavailable")) [
  | inl gone ↦ rw gone (get-pop r p.sender.resource rs u)
  | inr here ↦ rw here (get-put r p.sender.resource (normal_show p.show) rs)
]

heard_or_not :
    (b : Bool) (f g : Devices) (a r : String)
    → (if b then f a r else g a r) ≡ (if b then f else g) a r
heard_or_not true f g a r = refl
heard_or_not false f g a r = refl

module _ {L : Type 0} where
  note_presence-IsSound :
      (p : PresenceStanza) (c : Client L) → IsSound c → IsSound (note_presence p c)
  unfolding note_presence
  note_presence-IsSound p c h =
      put-All p.sender.bare _ c.presence_resources
        (resources_after-UniqueKeys p _ (get_or-UniqueKeys p.sender.bare c.presence_resources h)) h

  pub on_presence-IsSound :
      (p : PresenceStanza) (c : Client L) → IsSound c → IsSound (on_presence p c).state
  unfolding on_presence
  on_presence-IsSound p c h = elim (Bool-cases (is_ignored p c)) [
    | inl skip ↦ rw skip h
    | inr heard ↦ rw heard (note_presence-IsSound p c h)
  ]

  note_presence-hear :
      (p : PresenceStanza) (c : Client L) (b r : String)
      → IsSound c
      → devices (note_presence p c) b r ≡ hear p (devices c) b r
  unfolding note_presence
  note_presence-hear p c b r h =
      let rs = get_or [] p.sender.bare c.presence_resources in
      let u : UniqueKeys rs = get_or-UniqueKeys p.sender.bare c.presence_resources h in
      ground (
        arith,
        get-put b p.sender.bare (resources_after p rs) c.presence_resources,
        get-resources_after p rs r u,
      )

  pub on_presence-hear :
      (p : PresenceStanza) (c : Client L) (b r : String)
      → IsSound c
      → devices (on_presence p c).state b r
        ≡ (if is_ignored p c then devices c b r else hear p (devices c) b r)
  unfolding on_presence
  on_presence-hear p c b r h = elim (Bool-cases (is_ignored p c)) [
    | inl skip ↦ rw skip refl
    | inr heard ↦ rw heard (note_presence-hear p c b r h)
  ]

  on_presence-same :
      (p q : PresenceStanza) (c : Client L) → is_ignored q (on_presence p c).state ≡ is_ignored q c
  unfolding on_presence note_presence is_ignored
  on_presence-same p q c = elim (Bool-cases (is_ignored p c)) [
    | inl skip ↦ rw skip refl
    | inr heard ↦ rw heard refl
  ]

  replay-agree :
      (c c' : Client L) (ps : List PresenceStanza) (f : Devices)
      → ((q : PresenceStanza) → is_ignored q c' ≡ is_ignored q c)
      → replay c' ps f ≡ replay c ps f
  replay-agree c c' [] f e = refl
  replay-agree c c' (p ∷ ps) f e = rw (e p) (replay-agree c c' ps _ e)

  on_presences-replay :
      (ps : List PresenceStanza) (c : Client L)
      → IsSound c
      → devices (on_presences ps c) ≡ replay c ps (devices c)
  unfolding on_presences
  on_presences-replay [] c h = refl
  on_presences-replay (p ∷ ps) c h =
      on_presences-replay ps (on_presence p c).state (on_presence-IsSound p c h)
      ∙ replay-agree c (on_presence p c).state ps _ (λ q. on_presence-same p q c)
      ∙ ap (replay c ps) (
          fun_ext λ b. fun_ext λ r.
            on_presence-hear p c b r h
            ∙ heard_or_not (is_ignored p c) (devices c) (hear p (devices c)) b r)

  -- From a client that has heard nothing yet, whatever stanzas arrive, its dicts hold for each
  -- contact and device what that device said last, and nothing of a device that has left.
  pub on_presences_refines :
      (ps : List PresenceStanza) (c : Client L) (b r : String)
      → c.presence_resources ≡ []
      → devices (on_presences ps c) b r ≡ replay c ps (λ _ _. none) b r
  on_presences_refines ps c b r fresh =
      ap (λ f. f b r)
        (on_presences-replay ps c (subst (All (λ e. UniqueKeys e.1)) (sym fresh) tt)
          ∙ ap (replay c ps) (fun_ext λ b'. fun_ext λ r'. nothing b' r'))
    where
      nothing : (b' r' : String) → devices c b' r' ≡ none
      nothing b' r' = unfold Dict.get in ap (λ d. Dict.get r' (get_or [] b' d)) fresh
