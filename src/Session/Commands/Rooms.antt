-- ===== src/Session/Commands/Rooms.antt =====
-- The allowlist of room servers, against the parts of an address: a resource begins at the first
-- slash, and a local part ends at the first at-sign of what stands before it (RFC 7622, 3.1).
use pyconduit.Base.{String, string_eq, true, ◌≡◌, ap, ◌∙◌, sym, arith, contains, map}
use Prim.Native.String.{◌∷◌, ◌++◌}
use pyconduit.Base.Text.{
  before, after, Without, before-append, after-append, after_of_Without, before_of_Without,
  before-skip, one-append, Without-append,
}
use text.Mathlib.TextLemmas.{cons-append, append_assoc}
use pyconduit.Json.{str}
use pyconduit.Errors.{ok}
use pyconduit.Session.World.{Env}
use pyconduit.Session.Commands.{room_domain, room_domain_allowed}

-- The domain of an address.
abbrev pub address_domain : String → String
address_domain a = after b'@' (before b'/' a)

at_first : (rest : String) → before b'/' ("@" ∷ rest) ≡ "@" ∷ before b'/' rest
unfolding before
at_first rest = ground arith

regroup : (s t u : String) → s ++ ("/" ∷ (t ++ u)) ≡ (s ++ ("/" ∷ t)) ++ u
regroup s t u = ap (◌++◌ s) (sym (cons-append "/" t u)) ∙ sym (append_assoc s ("/" ∷ t) u)

listed_allowed :
    (E : Env) (room : String)
    → contains (map E.python.lower E.config.muc.discovery_servers) (room_domain E room) ≡ true
    → room_domain_allowed E (str room) ≡ ok true
unfolding room_domain_allowed
listed_allowed E room h = ground arith

module _ (E : Env) where
  -- Of an address with a local part that holds no at-sign and no slash, the allowlist's test reads
  -- the address's domain.
  room_domain-eq-address_domain :
      (local rest : String)
      → Without b'@' local
      → Without b'/' local
      → room_domain E (local ++ ("@" ++ rest))
        ≡ E.python.lower (address_domain (local ++ ("@" ++ rest)))
  unfolding room_domain
  room_domain-eq-address_domain local rest no_at no_slash = rw (one-append "@" rest) (
      ap (λ t. E.python.lower (before b'/' t)) (after-append "@" local rest no_at)
      ∙ ap E.python.lower (
          sym (
            ap (after b'@')
              (before-skip b'/' local ("@" ∷ rest) no_slash ∙ ap (◌++◌ local) (at_first rest))
            ∙ after-append "@" local (before b'/' rest) no_at)))

  -- A room address with no local part, of a server whose name holds no at-sign and no slash, passes
  -- the allowlist, whatever the server is, when its resource is a text that holds no at-sign, then
  -- an at-sign and a listed server whose name holds no slash; the address's own domain is the server.
  pub room_domain_allowed-resource :
      (server resource listed : String)
      → Without b'@' server
      → Without b'/' server
      → Without b'@' resource
      → Without b'/' listed
      → contains (map E.python.lower E.config.muc.discovery_servers) (E.python.lower listed) ≡ true
      → let room = server ++ ("/" ++ (resource ++ ("@" ++ listed))) in
        (room_domain_allowed E (str room) ≡ ok true) × (address_domain room ≡ server)
  room_domain_allowed-resource server resource listed a b c d ok_listed =
      rw (one-append "/" (resource ++ ("@" ++ listed)), one-append "@" listed) (allowed, domain)
    where
      read : room_domain E (server ++ ("/" ∷ (resource ++ ("@" ∷ listed)))) ≡ E.python.lower listed
      read =
          unfold room_domain in
          ap (λ t. E.python.lower (before b'/' t))
            (ap (after b'@') (regroup server resource ("@" ∷ listed))
              ∙ after-append "@" (server ++ ("/" ∷ resource)) listed
                  (Without-append b'@' server ("/" ∷ resource) a ((λ e. ground arith), c)))
          ∙ ap E.python.lower (before_of_Without b'/' listed d)

      allowed :
          room_domain_allowed E (str (server ++ ("/" ∷ (resource ++ ("@" ∷ listed))))) ≡ ok true
      allowed =
          listed_allowed E _
            (ap (contains (map E.python.lower E.config.muc.discovery_servers)) read ∙ ok_listed)

      domain : address_domain (server ++ ("/" ∷ (resource ++ ("@" ∷ listed)))) ≡ server
      domain =
          ap (after b'@') (before-append "/" server (resource ++ ("@" ∷ listed)) b)
          ∙ after_of_Without b'@' server a
