-- ===== src/Session/Account/Frames.antt =====
-- The frames of `_send_snapshot` of src/pyconduit/session/account.py, one by one.
use pyconduit.Base.{
  String, is_empty, if◌then◌else◌, map, List, [], ◌∷◌, Option, none, some, ◌≡◌, ◌≢◌, ◌↔◌, refl, sym,
  ap, inl, inr,
}
use mathlib.Core.List.Memᴰ
use mathlib.Core.List.Memᴰ.{Memᴰ}
use pyconduit.Base.Dict
use pyconduit.Base.Dict.{Dict}
use pyconduit.Json.{Json, json_eq, str}
use pyconduit.Protocol.Frames.{server_ready, server_roster, server_muc_joined, server_muc_occupants}
use pyconduit.Session.World.{Env, W}
use pyconduit.Session.Account.{snapshot, room_frames, occupants_frames}

-- What the rooms that are joined tell: that each is joined, and its occupants where some are known.
pub data IsOfRooms (occupants : Dict Json (List Json)) (rooms : Dict Json Json) (frame : Json)
    : Type 0 where
  joined :
      {room nick : Json}
      → Memᴰ (room, nick) rooms
      → frame ≡ server_muc_joined room nick none
      → IsOfRooms occupants rooms frame
  occupied :
      {room nick : Json} {os : List Json}
      → Memᴰ (room, nick) rooms
      → Dict.get room occupants ≡ some os
      → os ≢ []
      → frame ≡ server_muc_occupants room os
      → IsOfRooms occupants rooms frame

module _ (E : Env) (username : String) (w : W E) where
  -- The frame that greets a tab.
  abbrev pub greeting : Json
  greeting =
      server_ready w.jid username E.config.server.brand_title E.config.ui.sound_enabled_default
        (map str E.config.muc.discovery_servers) E.config.server.max_message_chars

  -- What the account tells a new tab: the greeting, its contacts if there are any, each presence
  -- that it keeps, and its rooms.
  pub data IsOfSnapshot (frame : Json) : Type 0 where
    greets : frame ≡ greeting → IsOfSnapshot frame
    lists_contacts : w.roster ≢ [] → frame ≡ server_roster w.roster → IsOfSnapshot frame
    tells_presence : {jid : String} → Memᴰ (jid, frame) w.presence → IsOfSnapshot frame
    tells_room : IsOfRooms w.muc_rosters w.joined_rooms frame → IsOfSnapshot frame

Memᴰ-values :
    (d : Dict String Json) (frame : Json)
    → Memᴰ frame (Dict.values d)
    → (jid : String) × Memᴰ (jid, frame) d
Memᴰ-values [] frame m = absurd (Memᴰ.not-nil m)
Memᴰ-values ((k, v) ∷ d) frame (Memᴰ.head e) = (k, Memᴰ.head (ap (λ x. (k, x)) e))
Memᴰ-values ((k, v) ∷ d) frame (Memᴰ.tail m) =
    let (jid, at) = Memᴰ-values d frame m in (jid, Memᴰ.tail at)

values-Memᴰ :
    (d : Dict String Json) (jid : String) (frame : Json)
    → Memᴰ (jid, frame) d
    → Memᴰ frame (Dict.values d)
values-Memᴰ [] jid frame m = absurd (Memᴰ.not-nil m)
values-Memᴰ ((k, v) ∷ d) jid frame (Memᴰ.head e) = Memᴰ.head (ap (λ x. x.1) e)
values-Memᴰ ((k, v) ∷ d) jid frame (Memᴰ.tail m) = Memᴰ.tail (values-Memᴰ d jid frame m)

module _ (E : Env) (occupants : Dict Json (List Json)) where
  occupants_frames_sound :
      (room frame : Json) (o : Option (List Json))
      → Memᴰ frame (occupants_frames E room o)
      → (os : List Json) × (o ≡ some os) × (os ≢ []) × (frame ≡ server_muc_occupants room os)
  occupants_frames_sound room frame none m = absurd (Memᴰ.not-nil m)
  occupants_frames_sound room frame (some []) m = absurd (Memᴰ.not-nil m)
  occupants_frames_sound room frame (some (o ∷ os)) m =
      (o ∷ os, refl, (λ e. cc e), Memᴰ.eq_of_singleton m)

  occupants_frames_complete :
      (room : Json) (os : List Json)
      → os ≢ []
      → Memᴰ (server_muc_occupants room os) (occupants_frames E room (some os))
  occupants_frames_complete room [] some_there = absurd (some_there refl)
  occupants_frames_complete room (o ∷ os) some_there = Memᴰ.head refl

  later :
      (room nick frame : Json) (rooms : Dict Json Json)
      → IsOfRooms occupants rooms frame
      → IsOfRooms occupants ((room, nick) ∷ rooms) frame
  later room nick frame rooms (joined m e) = joined (Memᴰ.tail m) e
  later room nick frame rooms (occupied m known there e) = occupied (Memᴰ.tail m) known there e

  room_frames_sound :
      (rooms : Dict Json Json) (frame : Json)
      → Memᴰ frame (room_frames E occupants rooms)
      → IsOfRooms occupants rooms frame
  unfolding room_frames
  room_frames_sound [] frame m = absurd (Memᴰ.not-nil m)
  room_frames_sound ((room, nick) ∷ rooms) frame (Memᴰ.head e) = joined (Memᴰ.head refl) e
  room_frames_sound ((room, nick) ∷ rooms) frame (Memᴰ.tail m) =
      elim (Memᴰ.append_cases (occupants_frames E room (Dict.get room occupants)) m) [
        | inl own ↦
            let (os, known, there, e) =
              occupants_frames_sound room frame (Dict.get room occupants) own in
            occupied (Memᴰ.head refl) known there e
        | inr rest ↦ later room nick frame rooms (room_frames_sound rooms frame rest)
      ]

  room_frames-joined :
      (rooms : Dict Json Json) (room nick : Json)
      → Memᴰ (room, nick) rooms
      → Memᴰ (server_muc_joined room nick none) (room_frames E occupants rooms)
  unfolding room_frames
  room_frames-joined [] room nick m = absurd (Memᴰ.not-nil m)
  room_frames-joined ((r, n) ∷ rooms) room nick (Memᴰ.head e) =
      Memᴰ.head (ap (λ x. server_muc_joined x.0 x.1 none) e)
  room_frames-joined ((r, n) ∷ rooms) room nick (Memᴰ.tail m) =
      Memᴰ.tail (Memᴰ.append_right _ (room_frames-joined rooms room nick m))

  room_frames-occupied :
      (rooms : Dict Json Json) (room nick : Json) (os : List Json)
      → Memᴰ (room, nick) rooms
      → Dict.get room occupants ≡ some os
      → os ≢ []
      → Memᴰ (server_muc_occupants room os) (room_frames E occupants rooms)
  unfolding room_frames
  room_frames-occupied [] room nick os m known there = absurd (Memᴰ.not-nil m)
  room_frames-occupied ((r, n) ∷ rooms) room nick os (Memᴰ.head e) known there =
      let same : r ≡ room = sym (ap (λ x. x.0) e) in
      Memᴰ.tail (
        Memᴰ.append_left {s = occupants_frames E r (Dict.get r occupants)} _
          (rw (same, known) (occupants_frames_complete room os there)))
  room_frames-occupied ((r, n) ∷ rooms) room nick os (Memᴰ.tail m) known there =
      Memᴰ.tail (Memᴰ.append_right _ (room_frames-occupied rooms room nick os m known there))

  room_frames_complete :
      (rooms : Dict Json Json) (frame : Json)
      → IsOfRooms occupants rooms frame
      → Memᴰ frame (room_frames E occupants rooms)
  room_frames_complete rooms frame (joined m e) = Memᴰ.cast e (room_frames-joined rooms _ _ m)
  room_frames_complete rooms frame (occupied m known there e) =
      Memᴰ.cast e (room_frames-occupied rooms _ _ _ m known there)

roster_frames_sound :
    (cs : List Json) (frame : Json)
    → Memᴰ frame (if is_empty cs then [] else server_roster cs ∷ [])
    → (cs ≢ []) × (frame ≡ server_roster cs)
roster_frames_sound [] frame m = absurd (Memᴰ.not-nil m)
roster_frames_sound (c ∷ cs) frame m = ((λ e. cc e), Memᴰ.eq_of_singleton m)

roster_frames_complete :
    (cs : List Json)
    → cs ≢ []
    → Memᴰ (server_roster cs) (if is_empty cs then [] else server_roster cs ∷ [])
roster_frames_complete [] there = absurd (there refl)
roster_frames_complete (c ∷ cs) there = Memᴰ.head refl

module _ (E : Env) (username : String) (w : W E) where
  abbrev contact_frames : List Json
  contact_frames = if is_empty w.roster then [] else server_roster w.roster ∷ []

  -- The snapshot begins with the greeting, and its frames are those and no others.
  pub snapshot-frames :
      ((rest : List Json) × (snapshot E username w ≡ greeting E username w ∷ rest))
      × ((frame : Json) → Memᴰ frame (snapshot E username w) ↔ IsOfSnapshot E username w frame)
  unfolding snapshot
  snapshot-frames = ((_, refl), λ frame. (to frame, from frame))
    where
      to : (frame : Json) → Memᴰ frame (snapshot E username w) → IsOfSnapshot E username w frame
      to frame (Memᴰ.head e) = greets e
      to frame (Memᴰ.tail m) = elim (Memᴰ.append_cases contact_frames m) [
        | inl told ↦
            let (there, e) = roster_frames_sound w.roster frame told in lists_contacts there e
        | inr rest ↦ elim (Memᴰ.append_cases (Dict.values w.presence) rest) [
          | inl kept ↦ tells_presence (Memᴰ-values w.presence frame kept).1
          | inr room ↦ tells_room (room_frames_sound E w.muc_rosters w.joined_rooms frame room)
        ]
      ]

      from : (frame : Json) → IsOfSnapshot E username w frame → Memᴰ frame (snapshot E username w)
      from frame (greets e) = Memᴰ.head e
      from frame (lists_contacts there e) =
          Memᴰ.tail (Memᴰ.append_left _ (Memᴰ.cast e (roster_frames_complete w.roster there)))
      from frame (tells_presence m) =
          Memᴰ.tail (
            Memᴰ.append_right contact_frames
              (Memᴰ.append_left _ (values-Memᴰ w.presence _ frame m)))
      from frame (tells_room r) = Memᴰ.tail (
          Memᴰ.append_right contact_frames (
            Memᴰ.append_right (Dict.values w.presence)
              (room_frames_complete E w.muc_rosters w.joined_rooms frame r)))
