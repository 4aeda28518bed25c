-- ===== src/Headers.antt =====
-- Request headers, looked up without regard to case, as auth.py and web/security.py both do.
use pyconduit.Base.{
  String, ◌==◌, string_eq, if◌then◌else◌, Option, none, some, [], ◌∷◌, ◌≡◌, refl, arith,
}
use pyconduit.Base.Dict
use pyconduit.Base.Dict.{Dict}
use pyconduit.Errors.{Python}

module _ (py : Python) where
  unfoldable pub lowered_from : Dict String String → Dict String String → Dict String String
  lowered_from acc [] = acc
  lowered_from acc ((k, v) ∷ headers) = lowered_from (Dict.put (py.lower k) v acc) headers

  -- `{k.lower(): v for k, v in headers.items()}`
  unfoldable pub lowered : Dict String String → Dict String String
  unfolding lowered_from
  lowered headers = lowered_from [] headers

  -- The value of the last header whose name, in lower case, is `name`.
  abbrev pub last_header : String → Dict String String → Option String
  last_header name [] = none
  last_header name ((k, v) ∷ headers) = elim (last_header name headers) [
    | some w ↦ some w
    | none ↦ if name == py.lower k then some v else none
  ]

  get-lowered_from :
      (name : String) (acc headers : Dict String String)
      → Dict.get name (lowered_from acc headers)
        ≡ (elim (last_header name headers) [ some w ↦ some w | none ↦ Dict.get name acc ])
  unfolding lowered_from
  get-lowered_from name acc [] = refl
  get-lowered_from name acc ((k, v) ∷ headers) = ground (
    arith,
    get-lowered_from name (Dict.put (py.lower k) v acc) headers,
    Dict.get-put name (py.lower k) v acc,
  )

  -- A look-up in the lowered dict finds the last of the headers that differ only in case.
  pub get-lowered :
      (name : String) (headers : Dict String String)
      → Dict.get name (lowered headers) ≡ last_header name headers
  unfolding lowered Dict.get
  get-lowered name headers = ground (arith, get-lowered_from name [] headers)
