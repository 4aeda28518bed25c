-- ===== src/Protocol/Parsing.antt =====
-- What protocol.py accepts from a tab.
use pyconduit.Base.{
  String, true, false, ◌==◌, string_eq, contains, ◌≡◌, ◌≢◌, ◌↔◌, refl, sym, ◌∙◌, ap, subst, Option,
  none, some, List, [], ◌∷◌, arith, All, inl, inr, Bool-cases,
}
use Prim.Native.String.{◌++◌}
use pyconduit.Base.Dict
use pyconduit.Base.Dict.{Dict}
use pyconduit.Json.{Json, Fields, null, str, obj, object, entries, entries-fields_of}
use pyconduit.Errors.{Error, ok, raise, protocol_error, Python}
use pyconduit.Protocol.{
  ClientMessage, client_types, is_missing, require, without_type, parse_type, parse_client_message,
}

-- The second dict is the first without its entries named "type": every other entry, in its place.
pub data IsRest : Dict String Json → Dict String Json → Type 0 where
  no_entry : IsRest [] []
  left_out :
      {k : String} {v : Json} {d rest : Dict String Json}
      → k ≡ "type"
      → IsRest d rest
      → IsRest ((k, v) ∷ d) rest
  kept :
      {k : String} {v : Json} {d rest : Dict String Json}
      → k ≢ "type"
      → IsRest d rest
      → IsRest ((k, v) ∷ d) ((k, v) ∷ rest)

-- A frame that a tab may send, and the message that it stands for.
pub record IsFrame (raw : Json) (m : ClientMessage) : Type 0 where
  pub fields : Fields
  pub shape : raw ≡ obj fields
  pub typed : Dict.get "type" (entries fields) ≡ some (str m.type)
  pub known : contains client_types m.type ≡ true
  pub rest : IsRest (entries fields) m.payload

without_type-IsRest : (d : Dict String Json) → IsRest d (without_type d)
unfolding without_type
without_type-IsRest [] = no_entry
without_type-IsRest ((k, v) ∷ d) = elim (string_eq.dec k "type") [
  | yes same ↦
      let is_type : (k == "type") ≡ true = ground arith in
      rw is_type (left_out same (without_type-IsRest d))
  | no other ↦
      let is_other : (k == "type") ≡ false = ground arith in
      rw is_other (kept other (without_type-IsRest d))
]

-- There is one such dict.
IsRest-without_type : (d rest : Dict String Json) → IsRest d rest → rest ≡ without_type d
unfolding without_type
IsRest-without_type [] rest no_entry = refl
IsRest-without_type ((k, v) ∷ d) rest (left_out same r) =
    let is_type : (k == "type") ≡ true = ground arith in rw is_type (IsRest-without_type d rest r)
IsRest-without_type ((k, v) ∷ d) ((j, w) ∷ rest) (kept other r) =
    let is_other : (k == "type") ≡ false = ground arith in
    rw is_other (ap (λ es. (k, v) ∷ es) (IsRest-without_type d rest r))

without_type_of_fresh : (d : Dict String Json) → Dict.get "type" d ≡ none → without_type d ≡ d
unfolding without_type Dict.get
without_type_of_fresh [] h = refl
without_type_of_fresh ((k, v) ∷ d) h = ground (arith, without_type_of_fresh d)

known-ne-empty : (t : String) → contains client_types t ≡ true → t ≢ ""
unfolding string_eq
known-ne-empty t known e = cc (subst (λ s. contains client_types s ≡ true) e known)

parse_type_of_known :
    (py : Python) (d : Dict String Json) (t : String)
    → contains client_types t ≡ true
    → parse_type py d (some (str t)) ≡ ok (record { type = t; payload = without_type d })
unfolding parse_type
parse_type_of_known py d t known = ground (arith, known-ne-empty t known)

-- A frame of a known type whose payload names no type is read back as it was built.
pub parse_client_message-object :
    (py : Python) (t : String) (d : Dict String Json)
    → contains client_types t ≡ true
    → Dict.get "type" d ≡ none
    → parse_client_message py (object (("type", str t) ∷ d)) ≡ ok (record { type = t; payload = d })
unfolding parse_client_message string_eq Dict.get
parse_client_message-object py t d known fresh =
    rw (entries-fields_of d)
      (parse_type_of_known py _ t known ∙ ap (λ p. ok (record { type = t; payload = p })) rest)
  where
    rest : without_type (("type", str t) ∷ d) ≡ d
    rest = unfold without_type string_eq in without_type_of_fresh d fresh

parse_type-known :
    (py : Python) (d : Dict String Json) (t : String) (m : ClientMessage)
    → parse_type py d (some (str t)) ≡ ok m
    → (contains client_types t ≡ true) × (m.type ≡ t) × (m.payload ≡ without_type d)
unfolding parse_type
parse_type-known py d t m h = ground arith

parse_type_sound :
    (py : Python) (fs : Fields) (m : ClientMessage) (o : Option Json)
    → Dict.get "type" (entries fs) ≡ o
    → parse_type py (entries fs) o ≡ ok m
    → IsFrame (obj fs) m
unfolding parse_type
parse_type_sound py fs m (some (str t)) e h =
    let (known, typed, rest) = parse_type-known py (entries fs) t m h in
    record {
      fields = fs;
      shape = refl;
      typed = rw typed e;
      known = rw typed known;
      rest = subst (IsRest (entries fs)) (sym rest) (without_type-IsRest (entries fs));
    }
parse_type_sound py fs m none e h = cc
parse_type_sound py fs m (some _) e h = cc

-- `parse_client_message` accepts exactly the objects whose "type" is a known text, and the message
-- has that type and the other entries, in their order.
pub parse_client_message_iff :
    (py : Python) (raw : Json) (m : ClientMessage)
    → (parse_client_message py raw ≡ ok m) ↔ IsFrame raw m
unfolding parse_client_message
parse_client_message_iff py raw m = (to raw, from raw)
  where
    to : (raw : Json) → parse_client_message py raw ≡ ok m → IsFrame raw m
    to (obj fs) h = parse_type_sound py fs m _ refl h
    to null h = cc
    to _ h = cc

    from : (raw : Json) → IsFrame raw m → parse_client_message py raw ≡ ok m
    from raw f =
        rw (f.shape, f.typed)
          (parse_type_of_known py _ m.type f.known
            ∙ ap (λ p. ok (record { type = m.type; payload = p }))
                (sym (IsRest-without_type _ _ f.rest)))

parse_type-protocol_error :
    (py : Python) (d : Dict String Json) (o : Option Json) {e : Error}
    → parse_type py d o ≡ raise e
    → (text : String) × (e ≡ protocol_error text)
unfolding parse_type
parse_type-protocol_error py d (some (str t)) h = elim (Bool-cases (t == "")) [
  | inl empty ↦ ("frame missing string 'type'", ground arith)
  | inr full ↦ ("unknown client message type: " ++ py.repr t, ground arith)
]
parse_type-protocol_error py d none h = ("frame missing string 'type'", cc)
parse_type-protocol_error py d (some _) h = ("frame missing string 'type'", cc)

-- Whatever it refuses it refuses by a ProtocolError.
pub parse_client_message-protocol_error :
    (py : Python) (raw : Json) {e : Error}
    → parse_client_message py raw ≡ raise e
    → (text : String) × (e ≡ protocol_error text)
unfolding parse_client_message
parse_client_message-protocol_error py (obj fs) h = parse_type-protocol_error py _ _ h
parse_client_message-protocol_error py null h = ("frame must be a JSON object", cc)
parse_client_message-protocol_error py _ h = ("frame must be a JSON object", cc)

-- A field counts as given when it is there and neither null nor the empty text.
abbrev pub IsGiven : Option Json → Type 0
IsGiven o = (o ≢ none) × (o ≢ some null) × (o ≢ some (str ""))

is_missing-IsGiven : (o : Option Json) → (is_missing o ≡ false) ↔ IsGiven o
is_missing-IsGiven none = ground arith
is_missing-IsGiven (some (str s)) = ground arith
is_missing-IsGiven (some null) = ground arith
is_missing-IsGiven (some _) = ground arith

-- `require` passes exactly when every field is given.
pub require_iff :
    (m : ClientMessage) (fs : List String)
    → (require m fs ≡ ok tt) ↔ All (λ f. IsGiven (Dict.get f m.payload)) fs
unfolding require
require_iff m [] = (λ _. tt, λ _. refl)
require_iff m (f ∷ fs) = ground (arith, is_missing-IsGiven (Dict.get f m.payload), require_iff m fs)
