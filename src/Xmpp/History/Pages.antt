-- ===== src/Xmpp/History/Pages.antt =====
-- What a page of the archive tells.
use pyconduit.Base.{
  ℕ, String, map, suc, string_eq, ◌==◌, ◌||◌, if◌then◌else◌, List, [], ◌∷◌, length, ◌≡◌, ◌≢◌, refl,
  ap, ◌∙◌, arith, All, Bool-cases, inl, inr,
}
use pyconduit.Json.{Json}
use pyconduit.Interface.{Answer, done, ArchivedMessage}
use pyconduit.Session.Commands.{ltb}
use pyconduit.Xmpp.Library.{Slixmpp, Jid, returned, Archive, ArchiveEntry}
use pyconduit.Xmpp.Client.{S}
use pyconduit.Xmpp.Messages.{id_or_new}
use pyconduit.Xmpp.History.{archived, collect, page_of, before_or_empty, fetch_history}

-- How many entries have a body.
abbrev pub bodied : {D : Type 0} → List (ArchiveEntry D) → ℕ
bodied [] = 0
bodied (e ∷ es) = if e.body == "" then bodied es else suc (bodied es)

-- The bodies of those entries, in their order.
abbrev pub bodies : {D : Type 0} → List (ArchiveEntry D) → List String
bodies [] = []
bodies (e ∷ es) = if e.body == "" then bodies es else e.body ∷ bodies es

module _ (X : Slixmpp) where
  -- The messages of a page: one for each entry with a body, and no other.
  record IsPage (n : ℕ) (texts : List String) (r : Answer (List ArchivedMessage)) : Type 0 where
    messages : List ArchivedMessage
    returns : r ≡ done messages
    as_many : length messages ≡ n
    same_bodies : map (λ m. m.body) messages ≡ texts
    all_bodied : All (λ m. m.body ≢ "") messages

  archived-done :
      (e : ArchiveEntry X.Datetime) (c : S X)
      → (m : ArchivedMessage) × ((archived X e c).outcome ≡ done m) × (m.body ≡ e.body)
  unfolding id_or_new
  archived-done e c = elim (Bool-cases (e.id == "")) [
    | inl absent ↦ rw absent (_, refl, refl)
    | inr given ↦ rw given (_, refl, refl)
  ]

  collect-IsPage :
      (es : List (ArchiveEntry X.Datetime)) (c : S X)
      → IsPage (bodied es) (bodies es) (collect X es c).outcome
  unfolding collect
  collect-IsPage [] c = record {
    messages = [];
    returns = refl;
    as_many = refl;
    same_bodies = refl;
    all_bodied = tt;
  }
  collect-IsPage (e ∷ es) c = elim (Bool-cases (e.body == "")) [
    | inl empty ↦ rw empty (collect-IsPage es c)
    | inr full ↦
        let (m, got, same) = archived-done e c in
        let p = collect-IsPage es (archived X e c).state in
        rw (full, got, p.returns)
          (record {
            messages = m ∷ p.messages;
            returns = refl;
            as_many = ap suc p.as_many;
            same_bodies =
                ap (λ b. b ∷ map (λ x. x.body) p.messages) same
                ∙ ap (λ bs. e.body ∷ bs) p.same_bodies;
            all_bodied = (ground arith, p.all_bodied);
          })
  ]

  page_done :
      (limit : ℕ) (a : Archive X.Datetime) (c : S X)
      → (ms : List ArchivedMessage) × ((page_of X limit (returned a) c).outcome
          ≡ done (ms, a.complete || ltb (bodied a.results) limit))
        × All (λ m. m.body ≢ "") ms
        × (length ms ≡ bodied a.results)
        × (map (λ m. m.body) ms ≡ bodies a.results)
  page_done limit a c =
      let p = collect-IsPage a.results c in
      (
        p.messages,
        rw p.returns (ap (λ n. done (p.messages, a.complete || ltb n limit)) p.as_many),
        p.all_bodied,
        p.as_many,
        p.same_bodies,
      )

  module _ (c : S X) (peer before : Json) (limit : ℕ) (j : Jid) (a : Archive X.Datetime)
      (parsed : X.parse_jid peer ≡ done j)
      (found : (X.retrieve j.bare (before_or_empty X before) limit c.lib).0 ≡ returned a) where
    -- A page that the archive answers has one message for each of its entries with a body, and is
    -- called complete where the archive says so or where those messages are fewer than were asked
    -- for.
    pub fetch_history-page :
        (ms : List ArchivedMessage) × ((fetch_history X peer before limit c).outcome
          ≡ done (ms, a.complete || ltb (bodied a.results) limit))
        × All (λ m. m.body ≢ "") ms
        × (length ms ≡ bodied a.results)
        × (map (λ m. m.body) ms ≡ bodies a.results)
    unfolding fetch_history
    fetch_history-page = rw (parsed, found) (page_done limit a _)
