-- ===== src/Base/Sorting.antt =====
-- Python's `sorted(xs, key=…)` on text keys: stable.
use Prim.Native.String.{String, compare}
use text.Mathlib.Text.{is_lt}
use pyconduit.Base.Equality.{if◌then◌else◌}
use mathlib.Core.Bool.{Bool}
use mathlib.Core.List.{List, [], ◌∷◌}

-- `s < t`, by code points
abbrev pub less : String → String → Bool
less s t = is_lt (compare s t)

module _ {ℓ} {A : Type ℓ} (key : A → String) where
  unfoldable pub insert_by : A → List A → List A
  insert_by x [] = x ∷ []
  insert_by x (y ∷ ys) = if less (key y) (key x) then y ∷ insert_by x ys else x ∷ y ∷ ys

  unfoldable pub sort_by : List A → List A
  unfolding insert_by
  sort_by [] = []
  sort_by (x ∷ xs) = insert_by x (sort_by xs)
