-- ===== src/Web/Responses.antt =====
-- The `_security_headers` middleware of src/pyconduit/web/app.py.
use pyconduit.Base.{
  String, string_eq, Bool, true, false, if◌then◌else◌, [], ◌∷◌, Option, none, some, ◌≡◌, refl, ap,
  ◌∙◌, All,
}
use pyconduit.Base.Dict.{Dict}

-- `SECURITY_HEADERS`
abbrev pub security_headers : Dict String String
security_headers =
    (
      "Content-Security-Policy",
      "default-src 'self'; connect-src 'self'; img-src 'self' data:; style-src 'self'; script-src 'self'; base-uri 'none'; frame-ancestors 'none'",
    )
    ∷ ("X-Content-Type-Options", "nosniff")
    ∷ ("X-Frame-Options", "DENY")
    ∷ ("Referrer-Policy", "no-referrer")
    ∷ []

-- A response's headers, of which the framework finds one by its name, whatever its case, and
-- `setdefault` adds one.
pub record Headers : Type 1 where
  pub State : Type 0
  pub find : String → State → Option String
  pub setdefault : String → String → State → State

module _ (H : Headers) where
  unfoldable pub set_defaults : Dict String String → H.State → H.State
  set_defaults [] response = response
  set_defaults ((name, value) ∷ rest) response =
      set_defaults rest (H.setdefault name value response)

  -- The middleware, on the response of what it wraps; there is none where the settings say so.
  unfoldable pub secured : Bool → H.State → H.State
  secured enabled response = if enabled then set_defaults security_headers response else response

  abbrev pub or_else : Option String → Option String → Option String
  or_else (some old) new = some old
  or_else none new = new

  -- What is documented of headers: of two names that are not the same, but for case, `setdefault`
  -- of one does not touch the other, and it sets its own only where it is absent.
  pub record IsHeaders : Type 0 where
    pub same : String → String → Bool
    pub find_own :
        (name value : String) (response : H.State)
        → H.find name (H.setdefault name value response)
          ≡ or_else (H.find name response) (some value)
    pub find_other :
        (name other value : String) (response : H.State)
        → same name other ≡ false
        → H.find other (H.setdefault name value response) ≡ H.find other response

  module _ (laws : IsHeaders) where
    -- No name stands twice.
    abbrev pub IsApart : Dict String String → Type 0
    IsApart [] = Unit {0}
    IsApart ((name, value) ∷ ds) =
        All (λ e. (laws.same name e.0 ≡ false) × (laws.same e.0 name ≡ false)) ds × IsApart ds

    set_defaults-other :
        (ds : Dict String String) (name : String) (response : H.State)
        → All (λ e. laws.same e.0 name ≡ false) ds
        → H.find name (set_defaults ds response) ≡ H.find name response
    unfolding set_defaults
    set_defaults-other [] name response h = refl
    set_defaults-other ((other, value) ∷ ds) name response h =
        set_defaults-other ds name (H.setdefault other value response) h.1
        ∙ laws.find_other other name value response h.0

    right :
        (name : String) (ds : Dict String String)
        → All (λ e. (laws.same name e.0 ≡ false) × (laws.same e.0 name ≡ false)) ds
        → All (λ e. laws.same e.0 name ≡ false) ds
    right name [] h = tt
    right name (e ∷ ds) h = (h.0.1, right name ds h.1)

    -- Setting one more default first changes nothing for the names that follow.
    shifted :
        (name value : String) (ds es : Dict String String) (response : H.State)
        → All (λ e. (laws.same name e.0 ≡ false) × (laws.same e.0 name ≡ false)) es
        → All
            (λ e.
              H.find e.0 (set_defaults ds (H.setdefault name value response))
              ≡ or_else (H.find e.0 (H.setdefault name value response)) (some e.1))
            es
        → All
            (λ e.
              H.find e.0 (set_defaults ds (H.setdefault name value response))
              ≡ or_else (H.find e.0 response) (some e.1))
            es
    shifted name value ds [] response apart h = tt
    shifted name value ds ((other, v) ∷ es) response apart h = (
      h.0 ∙ ap (λ x. or_else x (some v)) (laws.find_other name other value response apart.0.0),
      shifted name value ds es response apart.1 h.1,
    )

    set_defaults-All :
        (ds : Dict String String) (response : H.State)
        → IsApart ds
        → All
            (λ e. H.find e.0 (set_defaults ds response) ≡ or_else (H.find e.0 response) (some e.1))
            ds
    unfolding set_defaults
    set_defaults-All [] response apart = tt
    set_defaults-All ((name, value) ∷ ds) response apart = (
      set_defaults-other ds name (H.setdefault name value response) (right name ds apart.0)
          ∙ laws.find_own name value response,
      shifted name value ds ds response apart.0
          (set_defaults-All ds (H.setdefault name value response) apart.1),
    )

    -- Given what is documented of headers, a response of an application whose settings ask for it
    -- has each header of SECURITY_HEADERS, as the application set it where it did, and else with
    -- its value there; a header that is none of them is as it was.
    pub secured-All :
        (response : H.State)
        → IsApart security_headers
        → All
            (λ e. H.find e.0 (secured true response) ≡ or_else (H.find e.0 response) (some e.1))
            security_headers
          × ((name : String)
              → All (λ e. laws.same e.0 name ≡ false) security_headers
              → H.find name (secured true response) ≡ H.find name response)
    unfolding secured
    secured-All response apart = (
      set_defaults-All security_headers response apart,
      λ name other. set_defaults-other security_headers name response other,
    )
