-- ===== src/Session/Kept/Rooms.antt =====
-- The writes of the dicts of rooms, of a property that does not look at them.
use pyconduit.Base.{List, inl, inr}
use pyconduit.Base.Dict.{Dict}
use pyconduit.Json.{Json}
use pyconduit.Errors.{Result-cases}
use pyconduit.Session.World.{Env, W}
use pyconduit.Session.Commands.{remember_room, forget_room, forget_occupants, put_any, pop_any}
use pyconduit.Session.Kept.{Keeps}

module _ (E : Env) {P : W E → Type 0} where
  module _
      (joined : (rooms : Dict Json Json) (w : W E)
        → P w
        → P (record w { joined_rooms = rooms })) where
    pub remember_room-Keeps : (room nick : Json) → Keeps P (remember_room E room nick)
    unfolding remember_room
    remember_room-Keeps room nick = record {
      at = λ w h. elim (Result-cases (put_any room nick w.joined_rooms)) [
        | inl (rooms, e) ↦ rw (e, remember_room) (joined rooms w h)
        | inr (_, e) ↦ rw (e, remember_room) h
      ];
    }

    pub forget_room-Keeps : (room : Json) → Keeps P (forget_room E room)
    unfolding forget_room
    forget_room-Keeps room = record {
      at = λ w h. elim (Result-cases (pop_any room w.joined_rooms)) [
        | inl (rooms, e) ↦ rw (e, forget_room) (joined rooms w h)
        | inr (_, e) ↦ rw (e, forget_room) h
      ];
    }

  pub forget_occupants-Keeps :
      ((occupants : Dict Json (List Json)) (w : W E)
        → P w
        → P (record w { muc_rosters = occupants }))
      → (room : Json) → Keeps P (forget_occupants E room)
  unfolding forget_occupants
  forget_occupants-Keeps left room = record {
    at = λ w h. elim (Result-cases (pop_any room w.muc_rosters)) [
      | inl (occupants, e) ↦ rw (e, forget_occupants) (left occupants w h)
      | inr (_, e) ↦ rw (e, forget_occupants) h
    ];
  }
