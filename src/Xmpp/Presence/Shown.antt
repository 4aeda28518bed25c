-- ===== src/Xmpp/Presence/Shown.antt =====
-- What a tab is told of a contact with several devices.
use pyconduit.Base.{
  ℕ, ◌≤◌, String, string_eq, true, false, contains, List, [], ◌∷◌, Option, ◌≡◌, refl, All,
  Bool-cases, inl, inr, arith,
}
use pyconduit.Base.Dict
use pyconduit.Base.Dict.{Dict}
use pyconduit.Session.Commands.{ltb}
use pyconduit.Xmpp.Library.{PresenceStanza}
use pyconduit.Xmpp.Client.{Client}
use pyconduit.Xmpp.Presence.{
  get_or, priority, best, aggregate, is_ignored, note_presence, on_presence, update_of,
}

-- Of the shows of a contact's devices: "offline" when there is none, else the most available one.
pub data IsShown : List String → String → Type 0 where
  nobody : IsShown [] "offline"
  somebody :
      {show : String} {shows : List String}
      → contains shows show ≡ true
      → All (λ s. priority show ≤ priority s) shows
      → IsShown shows show

best-contains : (s : String) (ts : List String) → contains (s ∷ ts) (best s ts) ≡ true
unfolding best
best-contains s [] = ground arith
best-contains s (t ∷ ts) = elim (Bool-cases (ltb (priority t) (priority s))) [
  | inl better ↦ rw better (ground (arith, best-contains t ts))
  | inr worse ↦ rw worse (ground (arith, best-contains s ts))
]

best-le : (s : String) (ts : List String) → priority (best s ts) ≤ priority s
unfolding best
best-le s [] = ground arith
best-le s (t ∷ ts) = elim (Bool-cases (ltb (priority t) (priority s))) [
  | inl better ↦ rw better (ground (arith, best-le t ts))
  | inr worse ↦ rw worse (best-le s ts)
]

best-All :
    (m : ℕ) (s : String) (ts : List String)
    → priority (best s ts) ≡ m
    → All (λ t. m ≤ priority t) ts
unfolding best
best-All m s [] h = tt
best-All m s (t ∷ ts) h = elim (Bool-cases (ltb (priority t) (priority s))) [
  | inl better ↦
      let e : priority (best t ts) ≡ m = rw better at h in
      (ground (arith, best-le t ts), best-All m t ts e)
  | inr worse ↦
      let e : priority (best s ts) ≡ m = rw worse at h in
      (ground (arith, best-le s ts), best-All m s ts e)
]

aggregate-IsShown :
    (rs : Dict String String) (status : String) → IsShown (Dict.values rs) (aggregate rs status).0
unfolding aggregate
aggregate-IsShown [] status = nobody
aggregate-IsShown ((r, s) ∷ rs) status =
    somebody (best-contains s (Dict.values rs))
      (best-le s (Dict.values rs), best-All _ s (Dict.values rs) refl)

module _ {L : Type 0} where
  -- A stanza of a contact makes one update, which shows the contact as the most available of its
  -- devices, and as offline when none is left.
  pub on_presence-IsShown :
      (p : PresenceStanza) (c : Client L)
      → is_ignored p c ≡ false
      → (show : String) × (status : Option String) × ((on_presence p c).events
          ≡ update_of p.sender.bare (show, status) ∷ [])
        × IsShown
            (Dict.values (get_or [] p.sender.bare (on_presence p c).state.presence_resources))
            show
  unfolding on_presence
  on_presence-IsShown p c heard =
      let after = get_or [] p.sender.bare (note_presence p c).presence_resources in
      let told = aggregate after p.status in
      rw heard (told.0, told.1, refl, aggregate-IsShown after p.status)
