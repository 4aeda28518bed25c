-- ===== src/Session/View/Snapshot.antt =====
-- The snapshot that src/pyconduit/session/account.py sends to a new tab brings the tab's view to what
-- the account knows.
use pyconduit.Base.{
  String, string_eq, Bool, true, false, ◌==◌, if◌then◌else◌, is_empty, List, [], ◌∷◌, ◌++◌, map,
  Option, none, some, ◌⊎◌, ◌≡◌, refl, ap, ◌∙◌, fun_ext, All, arith, inl, inr,
}
use pyconduit.Base.Dict
use pyconduit.Base.Dict.{Dict, UniqueKeys}
use pyconduit.Json.{Json, array, json_eq}
use pyconduit.Protocol.Frames.{server_roster}
use pyconduit.Session.World.{Env, W, Subscriber, subscriber_eq}
use pyconduit.Session.Account.{snapshot, room_frames, occupants_frames}
use pyconduit.Session.Kept.Frames.{
  text_at, server_ready-other, server_muc_joined-other, server_muc_occupants-other,
}
use pyconduit.Session.View.{
  View, see, watch, known, with_presence, see-other, see-roster, see-presence,
}
use pyconduit.Session.View.Follows.{IsClosed}
use pyconduit.Session.View.Cache.{IsFiled}

-- A view that has missed things, but nothing that it has is out of date.
pub record IsPartial (v k : View) : Type 0 where
  pub contacts : (v.contacts ≡ array []) ⊎ (v.contacts ≡ k.contacts)
  pub presence : (j : String) → (v.presence j ≡ none) ⊎ (v.presence j ≡ k.presence j)

with-either :
    (b : Bool) (frame : Json) (x y : Option Json)
    → (x ≡ none) ⊎ (x ≡ y)
    → ((if b then some frame else x) ≡ none)
      ⊎ ((if b then some frame else x) ≡ (if b then some frame else y))
with-either true frame x y h = inr refl
with-either false frame x y h = h

pub IsPartial-IsClosed : IsClosed IsPartial
IsPartial-IsClosed = record {
  roster = λ v k contacts h. record { contacts = inr refl; presence = h.presence };
  presence = λ v k jid frame h. record {
    contacts = h.contacts;
    presence = λ j. with-either (j == jid) frame (v.presence j) (k.presence j) (h.presence j);
  };
}

pub Same-IsClosed : IsClosed (λ v k. v ≡ k)
Same-IsClosed = record {
  roster = λ v k contacts e. ap {A = View} (λ x. record x { contacts = contacts }) e;
  presence = λ v k jid frame e. ap (with_presence jid frame) e;
}

-- The frames that one tab sees, in turn.
abbrev pub sees : View → List Json → View
sees v [] = v
sees v (frame ∷ frames) = sees (see v frame) frames

pub watch-sees :
    (sub : Subscriber) (v : View) (frames : List Json)
    → watch sub v (map (λ frame. (sub, frame)) frames) ≡ sees v frames
unfolding watch
watch-sees sub v [] = refl
watch-sees sub v (frame ∷ frames) =
    let same : (sub == sub) ≡ true = ground arith in
    rw (same, watch) (watch-sees sub (see v frame) frames)

sees-append : (v : View) (xs ys : List Json) → sees v (xs ++ ys) ≡ sees (sees v xs) ys
sees-append v [] ys = refl
sees-append v (x ∷ xs) ys = sees-append (see v x) xs ys

view-ext :
    (v k : View) → v.contacts ≡ k.contacts → ((j : String) → v.presence j ≡ k.presence j) → v ≡ k
view-ext v k e f =
    ap (λ c. record v { contacts = c }) e ∙ ap (λ p. record k { presence = p }) (fun_ext f)

-- The presence frames, each under its address.
abbrev or_before : Option Json → Option Json → Option Json
or_before none before = before
or_before (some frame) before = some frame

sees-contacts :
    (v : View) (d : Dict String Json)
    → All IsFiled d
    → (sees v (Dict.values d)).contacts ≡ v.contacts
sees-contacts v [] h = refl
sees-contacts v ((k, frame) ∷ d) h =
    rw (see-presence v frame h.0.is_presence, sees)
      (sees-contacts (with_presence (text_at "jid" frame) frame v) d h.1)

sees-presence :
    (v : View) (d : Dict String Json) (j : String)
    → UniqueKeys d
    → All IsFiled d
    → (sees v (Dict.values d)).presence j ≡ or_before (Dict.get j d) (v.presence j)
unfolding Dict.get
sees-presence v [] j u h = refl
sees-presence v ((k, frame) ∷ d) j u h =
    rw (see-presence v frame h.0.is_presence, h.0.of_jid, sees)
      (sees-presence (with_presence k frame v) d j u.1 h.1 ∙ first (string_eq.dec j k))
  where
    first :
        Dec (j ≡ k)
        → or_before (Dict.get j d) (if j == k then some frame else v.presence j)
          ≡ or_before (if j == k then some frame else Dict.get j d) (v.presence j)
    first (yes same) =
        let absent : Dict.get j d ≡ none = ap (λ x. Dict.get x d) same ∙ u.0 in
        let here : (j == k) ≡ true = ground arith in rw (absent, here) refl
    first (no other) = let there : (j == k) ≡ false = ground arith in rw there refl

module _ (E : Env) where
  occupants-other :
      (v : View) (room : Json) (o : Option (List Json)) → sees v (occupants_frames E room o) ≡ v
  occupants-other v room none = refl
  occupants-other v room (some []) = refl
  occupants-other v room (some (o ∷ os)) = see-other v _ (server_muc_occupants-other room (o ∷ os))

  rooms-other :
      (v : View) (occupants : Dict Json (List Json)) (rooms : Dict Json Json)
      → sees v (room_frames E occupants rooms) ≡ v
  unfolding room_frames
  rooms-other v occupants [] = refl
  rooms-other v occupants ((room, nick) ∷ rooms) =
      ap
        (λ x.
          sees x
            (occupants_frames E room (Dict.get room occupants) ++ room_frames E occupants rooms))
        (see-other v _ (server_muc_joined-other room nick none))
      ∙ sees-append v (occupants_frames E room (Dict.get room occupants))
          (room_frames E occupants rooms)
      ∙ ap (λ x. sees x (room_frames E occupants rooms))
          (occupants-other v room (Dict.get room occupants))
      ∙ rooms-other v occupants rooms

  roster_frames : List Json → List Json
  roster_frames roster = if is_empty roster then [] else server_roster roster ∷ []

  -- After the contacts: they are the account's, and the presence is still partial.
  roster-seen :
      (v : View) (w : W E)
      → IsPartial v (known E w)
      → ((sees v (roster_frames w.roster)).contacts ≡ array w.roster)
        × ((sees v (roster_frames w.roster)).presence ≡ v.presence)
  unfolding roster_frames
  roster-seen v w h = go w.roster h.contacts
    where
      go :
          (roster : List Json)
          → (v.contacts ≡ array []) ⊎ (v.contacts ≡ array roster)
          → ((sees v (if is_empty roster then [] else server_roster roster ∷ [])).contacts
              ≡ array roster)
            × ((sees v (if is_empty roster then [] else server_roster roster ∷ [])).presence
                ≡ v.presence)
      go [] (inl e) = (e, refl)
      go [] (inr e) = (e, refl)
      go (c ∷ cs) _ =
          let e = see-roster v (c ∷ cs) in (ap (λ x. x.contacts) e, ap (λ x. x.presence) e)

  or_before-known :
      (found before : Option Json)
      → (before ≡ none) ⊎ (before ≡ found)
      → or_before found before ≡ found
  or_before-known none before (inl e) = e
  or_before-known none before (inr e) = e
  or_before-known (some frame) before _ = refl

  -- From a view that has missed things, the snapshot's frames give all that the account knows.
  pub snapshot-sees :
      (username : String) (v : View) (w : W E)
      → IsPartial v (known E w)
      → UniqueKeys w.presence
      → All IsFiled w.presence
      → sees v (snapshot E username w) ≡ known E w
  unfolding snapshot roster_frames
  snapshot-sees username v w h u filed =
      let roster = roster_frames w.roster in
      let values = Dict.values w.presence in
      let rooms = room_frames E w.muc_rosters w.joined_rooms in
      let v' = sees v roster in
      let seen = roster-seen v w h in
      ap (λ x. sees x (roster ++ (values ++ rooms)))
        (see-other v _ (server_ready-other _ _ _ _ _ _))
      ∙ sees-append v roster (values ++ rooms)
      ∙ sees-append v' values rooms
      ∙ rooms-other (sees v' values) w.muc_rosters w.joined_rooms
      ∙ view-ext (sees v' values) (known E w) (sees-contacts v' w.presence filed ∙ seen.0) (λ j.
        sees-presence v' w.presence j u filed
        ∙ or_before-known (Dict.get j w.presence) (v'.presence j) (rw seen.1 (h.presence j)))
