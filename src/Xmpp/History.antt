-- ===== src/Xmpp/History.antt =====
-- src/pyconduit/xmpp/slixmpp_client.py: `fetch_history`, a page of the message archive.
pub mod Pages
use pyconduit.Base.{
  ℕ, String, string_eq, ◌==◌, Bool, true, false, ◌||◌, if◌then◌else◌, List, [], ◌∷◌, length,
}
use pyconduit.Json.{Json, str, truthy}
use pyconduit.Interface.{Answer, done, failed, ArchivedMessage}
use pyconduit.Session.Commands.{ltb}
use pyconduit.Xmpp.Library.{
  Slixmpp, IqResult, returned, iq_failed, broke, Archive, ArchiveEntry, Stamp, aware, naive, other,
}
use pyconduit.Xmpp.Client.{Client, Method, S, ◌>>=◌, ◌>>◌, pure, gets, answer, call, bare_of}
use pyconduit.Xmpp.Messages.{id_or_new}

module _ (X : Slixmpp) where
  -- `_stamp_to_iso`
  unfoldable pub stamp_to_iso : Stamp X.Datetime → X.State → String
  stamp_to_iso (aware d) lib = X.utc_iso d
  stamp_to_iso (naive d) lib = X.utc_iso (X.as_utc d)
  stamp_to_iso (other text) lib = if text == "" then X.now lib else text

  abbrev pub archived : ArchiveEntry X.Datetime → Method (S X) ArchivedMessage
  archived e = do
    msg_id ← id_or_new X e.id
    timestamp ← gets (λ c. stamp_to_iso e.stamp c.lib)
    pure (record {
      from_jid = e.sender.bare;
      to_jid = e.receiver.bare;
      body = e.body;
      msg_id = msg_id;
      timestamp = timestamp;
    })

  -- The loop: an entry with no body is passed over.
  unfoldable pub collect : List (ArchiveEntry X.Datetime) → Method (S X) (List ArchivedMessage)
  collect [] = pure []
  collect (e ∷ es) =
      let rest = collect es in
      if e.body == "" then rest else do m ← archived e; ms ← rest; pure (m ∷ ms)

  abbrev pub page_of :
      ℕ → IqResult (Archive X.Datetime) → Method (S X) (List ArchivedMessage × Bool)
  page_of limit iq_failed = pure ([], true)
  page_of limit (broke text) = answer (failed text)
  page_of limit (returned a) = do
    collected ← collect a.results
    pure (collected, a.complete || ltb (length collected) limit)

  -- `before if before else ""`
  abbrev pub before_or_empty : Json → Json
  before_or_empty before = if truthy before then before else str ""

  unfoldable pub fetch_history : Json → Json → ℕ → Method (S X) (List ArchivedMessage × Bool)
  fetch_history peer before limit = do
    bare ← bare_of X peer
    r ← call X (X.retrieve bare (before_or_empty before) limit)
    page_of limit r
