-- ===== src/Session/Invariant/Rooms.antt =====
-- The rooms of an account, as the invariant of the account has them.
use pyconduit.Base.{Bool-cases, inl, inr, Bool, List, [], ◌∷◌, String, arith, ◌≡◌, subst}
use pyconduit.Base.Dict.{
  Dict, UniqueKeys, put-UniqueKeys, pop-UniqueKeys, AllKeys, put-AllKeys, pop-AllKeys,
}
use pyconduit.Json.{Json, json_eq}
use pyconduit.Errors.{ok, Result-cases}
use pyconduit.Session.World.{Env, W}
use pyconduit.Session.Commands.{
  put_any, pop_any, hashable, remember_room, forget_room, forget_occupants,
}
use pyconduit.Session.Kept.{Keeps, IsAllowed}
use pyconduit.Session.Invariant.{Inv}

put_any-UniqueKeys :
    {V : Type 0} (k : Json) (v : V) (d d' : Dict Json V)
    → UniqueKeys d
    → put_any k v d ≡ ok d'
    → UniqueKeys d'
put_any-UniqueKeys k v d d' u e = elim (Bool-cases (hashable k)) [
  | inl h ↦ subst UniqueKeys (ground arith) (put-UniqueKeys k v d u)
  | inr h ↦ absurd (ground arith)
]

pop_any-UniqueKeys :
    {V : Type 0} (k : Json) (d d' : Dict Json V)
    → UniqueKeys d
    → pop_any k d ≡ ok d'
    → UniqueKeys d'
pop_any-UniqueKeys k [] d' u e = subst UniqueKeys {x = []} (ground arith) tt
pop_any-UniqueKeys k (x ∷ d) d' u e = elim (Bool-cases (hashable k)) [
  | inl h ↦ subst UniqueKeys (ground arith) (pop-UniqueKeys k (x ∷ d) u)
  | inr h ↦ absurd (ground arith)
]

module _ {V : Type 0} (P : Json → Type 0) where
  put_any-AllKeys :
      (k : Json) (v : V) (d d' : Dict Json V)
      → P k
      → AllKeys P d
      → put_any k v d ≡ ok d'
      → AllKeys P d'
  put_any-AllKeys k v d d' p h e = elim (Bool-cases (hashable k)) [
    | inl hashed ↦ subst (AllKeys P) (ground arith) (put-AllKeys P k v d p h)
    | inr unhashed ↦ absurd (ground arith)
  ]

  pop_any-AllKeys :
      (k : Json) (d d' : Dict Json V) → AllKeys P d → pop_any k d ≡ ok d' → AllKeys P d'
  pop_any-AllKeys k [] d' h e = subst (AllKeys P) {x = []} (ground arith) tt
  pop_any-AllKeys k (x ∷ d) d' h e = elim (Bool-cases (hashable k)) [
    | inl hashed ↦ subst (AllKeys P) (ground arith) (pop-AllKeys P k (x ∷ d) h)
    | inr unhashed ↦ absurd (ground arith)
  ]

module _ (E : Env) (owner : String) (shut : Bool) where
  joined-Inv :
      (rooms : Dict Json Json) (w : W E)
      → UniqueKeys rooms
      → AllKeys (IsAllowed E) rooms
      → Inv E owner shut w
      → Inv E owner shut (record w { joined_rooms = rooms })
  joined-Inv rooms w u a h = ground arith

  left-Inv :
      (occupants : Dict Json (List Json)) (w : W E)
      → UniqueKeys occupants
      → Inv E owner shut w
      → Inv E owner shut (record w { muc_rosters = occupants })
  left-Inv occupants w u h = ground arith

  pub remember_room-Inv :
      (room nick : Json) → IsAllowed E room → Keeps (Inv E owner shut) (remember_room E room nick)
  unfolding remember_room
  remember_room-Inv room nick a = record {
    at = λ w h. elim (Result-cases (put_any room nick w.joined_rooms)) [
      | inl (rooms, e) ↦
          rw (e, remember_room)
            (joined-Inv rooms w (put_any-UniqueKeys room nick w.joined_rooms rooms h.room_keys e)
              (put_any-AllKeys _ room nick w.joined_rooms rooms a h.allowed e) h)
      | inr (_, e) ↦ rw (e, remember_room) h
    ];
  }

  pub forget_room-Inv : (room : Json) → Keeps (Inv E owner shut) (forget_room E room)
  unfolding forget_room
  forget_room-Inv room = record {
    at = λ w h. elim (Result-cases (pop_any room w.joined_rooms)) [
      | inl (rooms, e) ↦
          rw (e, forget_room)
            (joined-Inv rooms w (pop_any-UniqueKeys room w.joined_rooms rooms h.room_keys e)
              (pop_any-AllKeys _ room w.joined_rooms rooms h.allowed e) h)
      | inr (_, e) ↦ rw (e, forget_room) h
    ];
  }

  pub forget_occupants-Inv : (room : Json) → Keeps (Inv E owner shut) (forget_occupants E room)
  unfolding forget_occupants
  forget_occupants-Inv room = record {
    at = λ w h. elim (Result-cases (pop_any room w.muc_rosters)) [
      | inl (occupants, e) ↦
          rw (e, forget_occupants)
            (left-Inv occupants w
              (pop_any-UniqueKeys room w.muc_rosters occupants h.occupant_keys e) h)
      | inr (_, e) ↦ rw (e, forget_occupants) h
    ];
  }
