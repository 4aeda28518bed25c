-- ===== src/Session/View.antt =====
-- What a tab knows of its contacts from the frames that it has been sent, and what the account of
-- src/pyconduit/session/account.py knows: the abstract state that the tabs of an account share.
pub mod Broadcasts
pub mod Follows
pub mod Coroutines
pub mod Cache
pub mod Snapshot
pub mod Sync
use pyconduit.Base.{
  String, string_eq, ◌==◌, Bool, true, false, not, ◌&&◌, if◌then◌else◌, List, [], ◌∷◌, ◌++◌, Option,
  none, some, ◌≡◌, refl, ap, ◌∙◌, fun_ext, arith, Bool-cases, inl, inr,
}
use pyconduit.Base.Dict
use pyconduit.Json.{Json, array}
use pyconduit.Protocol.Frames.{server_roster, server_presence}
use pyconduit.Session.World.{Env, World, W, Subscriber, subscriber_eq}
use pyconduit.Session.Kept.Frames.{text_at, field_of, is_other}

-- The list of contacts, and for each address the last presence.
pub record View : Type 0 where
  pub contacts : Json
  pub presence : String → Option Json

abbrev pub blank : View
blank = record { contacts = array []; presence = λ j. none }

abbrev pub with_presence : String → Json → View → View
with_presence jid frame v = record v {
  presence = λ j. if j == jid then some frame else v.presence j;
}

-- A frame of type "roster" replaces the contacts, one of type "presence" the presence of its "jid".
unfoldable pub see : View → Json → View
see v frame =
    if text_at "type" frame == "roster"
    then record v { contacts = field_of "contacts" frame }
    else if text_at "type" frame == "presence"
    then with_presence (text_at "jid" frame) frame v
    else v

-- What a tab makes of the frames that were sent, of which it sees its own.
unfoldable pub watch : Subscriber → View → List (Subscriber × Json) → View
watch sub v [] = v
watch sub v ((s, frame) ∷ sent) = watch sub (if sub == s then see v frame else v) sent

module _ (E : Env) where
  -- What the account knows.
  abbrev pub known : W E → View
  known w = record { contacts = array w.roster; presence = λ j. Dict.get j w.presence }

  abbrev pub view_of : Subscriber → W E → View
  view_of sub w = watch sub blank w.sent

pub watch-append :
    (sub : Subscriber) (v : View) (xs ys : List (Subscriber × Json))
    → watch sub v (xs ++ ys) ≡ watch sub (watch sub v xs) ys
unfolding watch
watch-append sub v [] ys = refl
watch-append sub v ((s, frame) ∷ xs) ys =
    watch-append sub (if sub == s then see v frame else v) xs ys

pub see-other : (v : View) (frame : Json) → is_other frame ≡ true → see v frame ≡ v
unfolding see is_other
see-other v frame h = ground arith

pub see-roster :
    (v : View) (contacts : List Json)
    → see v (server_roster contacts) ≡ record v { contacts = array contacts }
unfolding see server_roster Dict.get string_eq
see-roster v contacts = refl

pub server_presence-type :
    (jid show : String) (status : Option String)
    → text_at "type" (server_presence jid show status) ≡ "presence"
unfolding server_presence Dict.get string_eq
server_presence-type jid show status = refl

pub server_presence-jid :
    (jid show : String) (status : Option String)
    → text_at "jid" (server_presence jid show status) ≡ jid
unfolding server_presence Dict.get string_eq
server_presence-jid jid show status = refl

pub see-presence :
    (v : View) (frame : Json)
    → text_at "type" frame ≡ "presence"
    → see v frame ≡ with_presence (text_at "jid" frame) frame v
unfolding see string_eq
see-presence v frame h = rw h refl

-- Told twice is told once.
pub see-see : (v : View) (frame : Json) → see (see v frame) frame ≡ see v frame
unfolding see
see-see v frame = elim (Bool-cases (text_at "type" frame == "roster")) [
  | inl roster ↦ rw roster refl
  | inr none_of_it ↦ rw none_of_it (elim (Bool-cases (text_at "type" frame == "presence")) [
    | inl presence ↦ rw presence (again (text_at "jid" frame))
    | inr other ↦ rw other refl
  ])
]
  where
    again :
        (jid : String)
        → with_presence jid frame (with_presence jid frame v) ≡ with_presence jid frame v
    again jid =
        ap (λ p. record v { presence = p })
          (fun_ext λ j. elim (Bool-cases (j == jid)) [
            | inl same ↦ rw same refl
            | inr differs ↦ rw differs refl
          ])
