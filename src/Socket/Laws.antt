-- ===== src/Socket/Laws.antt =====
-- What web/ws.py guarantees.
use pyconduit.Base.{
  String, string_eq, true, some, ◌≡◌, ◌≢◌, refl, sym, ap, subst, ◌∙◌, arith, Bool-cases, inl, inr,
}
use pyconduit.Base.Dict
use pyconduit.Base.Dict.{Dict}
use pyconduit.Errors.{Result, ok, raise, Python}
use pyconduit.Headers.{last_header}
use pyconduit.Config.{Config}
use pyconduit.Auth.{Identity, AuthMapper, resolve}
use pyconduit.Auth.Laws.{resolve_iff, extract_username-proxy_iff}
use pyconduit.Security.{origin_allowed}
use pyconduit.Session.World.{subscriber_eq}
use pyconduit.Socket.{Request, admitted, handshake, ip_of, user_of, extracted, resolved}

module _ {F : Type 0} (cfg : Config F) (py : Python) (mapper : AuthMapper) where
  resolved_iff :
      (ip ip' username : String) (r : Result Identity) (i : Identity)
      → resolved cfg py mapper ip username r ≡ admitted i ip'
      → r ≡ ok i
  resolved_iff ip ip' username (ok j) i h = ground arith
  resolved_iff ip ip' username (raise e) i h = cc

  module _ (req : Request) (i : Identity) where
    extracted_sound :
        (ip : String) (r : Result String)
        → extracted cfg py mapper (ip_of cfg py mapper req) r ≡ admitted i ip
        → (u : String) × (r ≡ ok u) × (resolve py mapper u ≡ ok i)
    extracted_sound ip (ok u) h = (u, refl, resolved_iff _ ip u _ i h)
    extracted_sound ip (raise e) h = cc

    -- In proxy mode a socket is admitted under an identity only from an allowed Origin, and only
    -- the one that the mapping files give for the last header of the configured name, with the
    -- password that they hold for its JID.
    pub handshake-proxy_identity :
        cfg.auth.mode ≢ "dev"
        → handshake cfg py mapper req ≡ admitted i (ip_of cfg py mapper req)
        → (origin_allowed req.origin cfg.server.allowed_origins ≡ true)
          × (last_header py (py.lower cfg.auth.header) req.headers ≡ some i.username)
          × (Dict.get i.username mapper.users ≡ some i.jid)
          × (Dict.get i.jid mapper.credentials ≡ some i.password)
    unfolding handshake
    handshake-proxy_identity proxy h =
        elim (Bool-cases (origin_allowed req.origin cfg.server.allowed_origins)) [
          | inl listed ↦
              let (u, named, found) =
                extracted_sound _ (user_of cfg py mapper req) (rw listed at h) in
              let (given, same, mapped, stored) = (resolve_iff py mapper u i).0 found in
              let header =
                (extract_username-proxy_iff py cfg.auth.mode cfg.auth.header req.headers
                    req.query_user cfg.auth.dev_default_user u proxy).0
                  named in
              (
                listed,
                header.0 ∙ ap some (sym same),
                subst (λ n. Dict.get n mapper.users ≡ some i.jid) (sym same) mapped,
                stored,
              )
          | inr other ↦ cc (rw other at h)
        ]

  -- Whoever is admitted has been resolved.
  pub handshake-resolved :
      (req : Request) (i : Identity) (ip : String)
      → handshake cfg py mapper req ≡ admitted i ip
      → resolve py mapper i.username ≡ ok i
  unfolding handshake
  handshake-resolved req i ip h =
      elim (Bool-cases (origin_allowed req.origin cfg.server.allowed_origins)) [
        | inl listed ↦
            let (u, _, found) =
              extracted_sound req i ip (user_of cfg py mapper req) (rw listed at h) in
            let (_, same, _, _) = (resolve_iff py mapper u i).0 found in
            subst (λ n. resolve py mapper n ≡ ok i) (sym same) found
        | inr other ↦ absurd (cc (rw other at h))
      ]
