-- ===== src/Security/Laws.antt =====
-- Who may connect, and as which address.
use pyconduit.Base.{
  String, true, string_eq, contains, Option, none, some, List, [], ◌∷◌, ◌≡◌, ◌≢◌, ◌↔◌, ◌⊎◌, inl,
  inr, refl, ap, ◌∙◌, arith,
}
use mathlib.Core.List.{Mem, not-mem-nil, mem-cons_self, mem-cons_of_mem, mem-cons}
use mathlib.Core.Logic.Or
use Prim.Native.String.{◌++◌, ◌∷◌}
use pyconduit.Base.Dict
use pyconduit.Base.Dict.{Dict}
use pyconduit.Base.Text.{Without, before-append, one-append, append-ne-nil, strip}
use pyconduit.Errors.{Python}
use pyconduit.Headers.{last_header, lowered, get-lowered}
use pyconduit.Security.{client_ip, forwarded, origin_allowed}

contains-Mem : (xs : List String) (a : String) → contains xs a ≡ true → Mem a xs
contains-Mem [] a h = cc
contains-Mem (x ∷ xs) a h = elim (string_eq.dec a x) [
  | yes p ↦ rw p mem-cons_self
  | no p ↦ mem-cons_of_mem x (contains-Mem xs a (ground arith))
]

Mem-contains : (xs : List String) (a : String) → Mem a xs → contains xs a ≡ true
Mem-contains [] a m = absurd (not-mem-nil m)
Mem-contains (x ∷ xs) a m =
    Or.elim (hlevel) (mem-cons.0 m) (λ e. ground arith) (λ t. ground (arith, Mem-contains xs a t))

origin_listed :
    (o a : String) (allowed : List String)
    → (origin_allowed (some o) (a ∷ allowed) ≡ true)
      ↔ ((o ≢ "") × (contains (a ∷ allowed) o ≡ true))
unfolding origin_allowed
origin_listed o a allowed = ground arith

-- A handshake passes exactly when no allowlist is set, or its Origin is given, is not empty and
-- stands on the list.
pub origin_allowed_iff :
    (origin : Option String) (allowed : List String)
    → (origin_allowed origin allowed ≡ true)
      ↔ ((allowed ≡ []) ⊎ ((o : String) × (origin ≡ some o) × (o ≢ "") × Mem o allowed))
unfolding origin_allowed
origin_allowed_iff origin [] = (λ _. inl refl, λ _. refl)
origin_allowed_iff none (a ∷ allowed) = (λ h. cc, λ h. ground arith)
origin_allowed_iff (some o) (a ∷ allowed) = (to, from)
  where
    to :
        origin_allowed (some o) (a ∷ allowed) ≡ true
        → (a ∷ allowed ≡ []) ⊎ ((p : String) × (some o ≡ some p) × (p ≢ "") × Mem p (a ∷ allowed))
    to h =
        let (given, listed) = (origin_listed o a allowed).0 h in
        inr (o, refl, given, contains-Mem (a ∷ allowed) o listed)

    from :
        (a ∷ allowed ≡ []) ⊎ ((p : String) × (some o ≡ some p) × (p ≢ "") × Mem p (a ∷ allowed))
        → origin_allowed (some o) (a ∷ allowed) ≡ true
    from (inl e) = cc
    from (inr (p, e, given, listed)) =
        let same : o ≡ p = cc in
        rw same ((origin_listed p a allowed).1 (given, Mem-contains (a ∷ allowed) p listed))

first_of :
    (hop rest : String) (peer : Option String)
    → Without b',' hop
    → forwarded (some (hop ++ ("," ∷ rest))) peer ≡ strip hop
first_of hop rest peer one_hop =
    ground (arith, append-ne-nil hop "," rest, before-append "," hop rest one_hop)

-- Behind a proxy the address is the first hop of the configured header, whatever hops follow it and
-- whatever the socket's peer is: the text before the first comma of the header's last value, without
-- the space around it.
pub client_ip-first_hop :
    (py : Python) (headers : Dict String String) (peer : Option String)
    (ip_header hop rest : String)
    → ip_header ≢ ""
    → last_header py (py.lower ip_header) headers ≡ some (hop ++ ("," ++ rest))
    → Without b',' hop
    → client_ip py headers peer (some ip_header) ≡ strip hop
unfolding client_ip
client_ip-first_hop py headers peer ip_header hop rest named found one_hop =
    let read : Dict.get (py.lower ip_header) (lowered py headers) ≡ some (hop ++ ("," ∷ rest)) =
      get-lowered py (py.lower ip_header) headers
      ∙ found
      ∙ ap (λ t. some (hop ++ t)) (one-append "," rest) in
    rw read (ground (arith, first_of hop rest peer one_hop))
