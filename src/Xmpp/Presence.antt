-- ===== src/Xmpp/Presence.antt =====
-- src/pyconduit/xmpp/slixmpp_client.py: the presence of contacts that are logged in from several
-- devices.
pub mod Replay
pub mod Shown
use pyconduit.Base.{
  ℕ, String, string_eq, ◌==◌, Bool, true, false, ◌||◌, contains, if◌then◌else◌, List, [], ◌∷◌, map,
  Option, none, some,
}
use pyconduit.Base.Dict
use pyconduit.Base.Dict.{Dict}
use pyconduit.Json.{Json, str, null, truthy, json_eq}
use pyconduit.Interface.{Notice, presence_update, PresenceUpdate}
use pyconduit.Session.Commands.{ltb}
use pyconduit.Xmpp.Library.{Slixmpp, PresenceStanza, presence, unavailable}
use pyconduit.Xmpp.Client.{Client, Method, S, ◌>>=◌, ◌>>◌, pure, run, emit, transmit}

-- `d.get(k, default)`
abbrev pub get_or {ℓ} : {V : Type ℓ} → V → String → Dict String V → V
get_or v k d = elim (Dict.get k d) [ none ↦ v | some w ↦ w ]

abbrev pub show_map : Dict String String
show_map =
    ("", "online") ∷ ("chat", "online") ∷ ("away", "away") ∷ ("xa", "xa") ∷ ("dnd", "dnd") ∷ []

abbrev pub show_priority : Dict String ℕ
show_priority = ("online", 0) ∷ ("away", 1) ∷ ("xa", 2) ∷ ("dnd", 3) ∷ []

unfoldable pub normal_show : String → String
normal_show show = get_or "online" show show_map

unfoldable pub priority : String → ℕ
priority show = get_or 0 show show_priority

-- `min(…, key=…)` keeps the first of the least.
unfoldable pub best : String → List String → String
best s [] = s
best s (t ∷ ts) = best (if ltb (priority t) (priority s) then t else s) ts

-- `show, status`, of the resources that are left.
unfoldable pub aggregate : Dict String String → String → String × Option String
aggregate [] status = ("offline", none)
aggregate ((r, s) ∷ rs) status =
    (best s (Dict.values rs), (if status == "" then none else some status))

-- Whether `_on_presence` returns at once.
unfoldable pub is_ignored : {L : Type 0} → PresenceStanza → Client L → Bool
is_ignored p c =
    (p.sender.bare == c.bare)
    || (contains (map (λ e. e.0) c.joined_rooms) p.sender.bare || p.muc_user)

unfoldable pub resources_after : PresenceStanza → Dict String String → Dict String String
resources_after p rs =
    if p.type == "unavailable"
    then Dict.pop p.sender.resource rs
    else Dict.put p.sender.resource (normal_show p.show) rs

abbrev pub update_of : String → String × Option String → Notice
update_of bare (show, status) =
    presence_update (record { jid = bare; show = show; status = status })

-- `setdefault` and the change of the dict that it returns.
unfoldable pub note_presence : {L : Type 0} → PresenceStanza → Client L → Client L
note_presence p c =
    let rs = resources_after p (get_or [] p.sender.bare c.presence_resources) in
    record c { presence_resources = Dict.put p.sender.bare rs c.presence_resources }

abbrev pub report_presence : {L : Type 0} → PresenceStanza → Method (Client L) (Unit {0})
report_presence p c =
    emit
      (update_of p.sender.bare (aggregate (get_or [] p.sender.bare c.presence_resources) p.status))
      c

unfoldable pub on_presence : {L : Type 0} → PresenceStanza → Method (Client L) (Unit {0})
on_presence p c = if is_ignored p c then pure tt c else report_presence p (note_presence p c)

module _ (X : Slixmpp) where
  -- `slix_show or None`
  abbrev pub pshow_of : Json → Json
  pshow_of show =
      let s = (if show == str "online" then str "" else show) in if truthy s then s else null

  unfoldable pub set_presence : Json → Json → Method (S X) (Unit {0})
  set_presence show status =
      if show == str "offline"
      then transmit X (X.transmit (unavailable status))
      else transmit X (X.transmit (presence (pshow_of show) status))
