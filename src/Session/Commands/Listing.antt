-- ===== src/Session/Commands/Listing.antt =====
-- What the list of room servers holds.
use pyconduit.Base.{String, List, [], ◌∷◌, map, ◌≡◌, refl, subst, Bool-cases, inl, inr}
use mathlib.Core.List.Permᴰ
use mathlib.Core.List.{Permᴰ}
use pyconduit.Base.Sorting.{less, insert_by, sort_by}
use pyconduit.Errors.{Result, ok, raise}
use pyconduit.Protocol.Frames.{server_disco_servers}
use pyconduit.Interface.{DiscoveredRooms}
use pyconduit.Session.World.{Env, W, Subscriber, send}
use pyconduit.Session.Events.{call}
use pyconduit.Session.Commands.Disco.{
  ServerEntry, entry_json, discover, server_entry, server_entries, cmd_disco_servers,
}

module _ {A : Type 0} (key : A → String) where
  insert_by-Permᴰ : (x : A) (ys : List A) → Permᴰ (insert_by key x ys) (x ∷ ys)
  unfolding insert_by
  insert_by-Permᴰ x [] = Permᴰ.refl (x ∷ [])
  insert_by-Permᴰ x (y ∷ ys) = elim (Bool-cases (less (key y) (key x))) [
    | inl before ↦
        rw before (Permᴰ.trans (Permᴰ.cons refl (insert_by-Permᴰ x ys)) (Permᴰ.swap refl refl))
    | inr after ↦ rw after (Permᴰ.refl (x ∷ y ∷ ys))
  ]

  sort_by-Permᴰ : (xs : List A) → Permᴰ (sort_by key xs) xs
  unfolding sort_by
  sort_by-Permᴰ [] = Permᴰ.nil
  sort_by-Permᴰ (x ∷ xs) =
      Permᴰ.trans (insert_by-Permᴰ x (sort_by key xs)) (Permᴰ.cons refl (sort_by-Permᴰ xs))

module _ (E : Env) where
  server_entry-server : (s : String) (r : Result DiscoveredRooms) → (server_entry E s r).server ≡ s
  unfolding server_entry
  server_entry-server s (ok res) = refl
  server_entry-server s (raise _) = refl

  -- The queries never raise, and each server has one entry, in the order of the settings.
  discover-returns :
      (ss : List String) (w : W E)
      → (rs : List (Result DiscoveredRooms)) × ((discover E ss w).0 ≡ ok rs)
        × (map (λ e. e.server) (server_entries E ss rs) ≡ ss)
  unfolding discover server_entries
  discover-returns [] w = ([], refl, refl)
  discover-returns (s ∷ ss) w =
      let r = call E (E.xmpp.disco_rooms s) w in
      let (rs, got, listed) = discover-returns ss r.1 in
      (r.0 ∷ rs, rw got refl, λ i. server_entry-server s r.0 i ∷ listed i)

  -- A tab that asks for the room servers is sent one frame, which lists each configured server
  -- once, in some order, whatever the queries raise.
  pub cmd_disco_servers-lists :
      (sub : Subscriber) (w : W E)
      → (payload : List ServerEntry) × Permᴰ
          (map (λ e. e.server) payload)
          E.config.muc.discovery_servers
        × (cmd_disco_servers E sub w
            ≡ send E sub
                (server_disco_servers (map entry_json payload))
                (discover E E.config.muc.discovery_servers w).1)
  unfolding cmd_disco_servers
  cmd_disco_servers-lists sub w =
      let servers = E.config.muc.discovery_servers in
      let (rs, got, listed) = discover-returns servers w in
      let entries = server_entries E servers rs in
      let key : ServerEntry → String = λ e. E.python.lower e.server in
      (
        sort_by key entries,
        subst (Permᴰ (map (λ e. e.server) (sort_by key entries))) listed
            (Permᴰ.map (λ e. e.server) (sort_by-Permᴰ key entries)),
        rw got refl,
      )
