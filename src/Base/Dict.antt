-- ===== src/Base/Dict.antt =====
-- Python's `dict`, in insertion order.
use mathlib.Core.Logic.{inl, inr}
use pyconduit.Base.Equality.{Bool-cases, Eq, ◌==◌, if◌then◌else◌}
use mathlib.Core.Path.{◌≡◌, refl}
use mathlib.Core.Option.{Option, none, some}
use mathlib.Core.List.{List, [], ◌∷◌}
use native.Mathlib.Omega.{arith}

abbrev pub Dict {ℓ κ} : Type ℓ → Type κ → Type (ℓ ⊔ κ)
Dict K V = List (K × V)

abbrev pub values {ℓ κ} : {K : Type ℓ} {V : Type κ} → Dict K V → List V
values [] = []
values ((k, v) ∷ d) = v ∷ values d

module _ {ℓ κ} {K : Type ℓ} {V : Type κ} ⦃e : Eq K⦄ where
  -- `d.get(k)`
  unfoldable pub get : K → Dict K V → Option V
  get k [] = none
  get k ((j, v) ∷ d) = if k == j then some v else get k d

  -- `d[k] = v`: a present key keeps its place.
  unfoldable pub put : K → V → Dict K V → Dict K V
  put k v [] = (k, v) ∷ []
  put k v ((j, w) ∷ d) = if k == j then (j, v) ∷ d else (j, w) ∷ put k v d

  -- `d.pop(k, None)`
  unfoldable pub pop : K → Dict K V → Dict K V
  pop k [] = []
  pop k ((j, w) ∷ d) = if k == j then d else (j, w) ∷ pop k d

  -- No key stands twice.
  abbrev pub UniqueKeys : Dict K V → Type κ
  UniqueKeys [] = Unit
  UniqueKeys ((k, v) ∷ d) = (get k d ≡ none) × UniqueKeys d

  pub get-put :
      (j k : K) (v : V) (d : Dict K V) → get j (put k v d) ≡ (if j == k then some v else get j d)
  unfolding get put
  get-put j k v [] = refl
  get-put j k v ((i, w) ∷ d) = ground (arith, get-put j k v d)

  pub get-pop :
      (j k : K) (d : Dict K V) → UniqueKeys d → get j (pop k d) ≡ (if j == k then none else get j d)
  unfolding get pop
  get-pop j k [] u = ground arith
  get-pop j k ((i, w) ∷ d) u = ground (arith, get-pop j k d)

  pub put-UniqueKeys : (k : K) (v : V) (d : Dict K V) → UniqueKeys d → UniqueKeys (put k v d)
  unfolding put get
  put-UniqueKeys k v [] u = (refl, tt)
  put-UniqueKeys k v ((i, w) ∷ d) u = ground (arith, put-UniqueKeys k v d, get-put i k v d)

  pub pop-UniqueKeys : (k : K) (d : Dict K V) → UniqueKeys d → UniqueKeys (pop k d)
  unfolding pop
  pop-UniqueKeys k [] u = tt
  pop-UniqueKeys k ((i, w) ∷ d) u = ground (arith, pop-UniqueKeys k d, get-pop i k d)

  -- A property of every key.
  abbrev pub AllKeys {μ} : (K → Type μ) → Dict K V → Type μ
  AllKeys P [] = Unit
  AllKeys P ((k, v) ∷ d) = P k × AllKeys P d

  pub put-AllKeys {μ} :
      (P : K → Type μ) (k : K) (v : V) (d : Dict K V) → P k → AllKeys P d → AllKeys P (put k v d)
  unfolding put
  put-AllKeys P k v [] p h = (p, tt)
  put-AllKeys P k v ((j, w) ∷ d) p h = elim (Bool-cases (k == j)) [
    | inl same ↦ rw same h
    | inr other ↦ rw other (h.0, put-AllKeys P k v d p h.1)
  ]

  pub pop-AllKeys {μ} : (P : K → Type μ) (k : K) (d : Dict K V) → AllKeys P d → AllKeys P (pop k d)
  unfolding pop
  pop-AllKeys P k [] h = tt
  pop-AllKeys P k ((j, w) ∷ d) h = elim (Bool-cases (k == j)) [
    | inl same ↦ rw same h.1
    | inr other ↦ rw other (h.0, pop-AllKeys P k d h.1)
  ]

  pub get-AllKeys {μ} :
      (P : K → Type μ) (k : K) (v : V) (d : Dict K V) → get k d ≡ some v → AllKeys P d → P k
  unfolding get
  get-AllKeys P k v [] found h = absurd (cc)
  get-AllKeys P k v ((j, w) ∷ d) found h = elim (e.dec k j) [
    | yes same ↦ rw same h.0
    | no other ↦ get-AllKeys P k v d (ground arith) h.1
  ]
