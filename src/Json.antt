-- ===== src/Json.antt =====
-- JSON values as Python's `json` module reads them: what the tabs send and what they are sent.
-- A number that Python holds equal to an integer is that integer, `neg n` is -(n + 1), and a
-- `fraction` is any other number, by its text. An object is a dict: its keys are distinct.
use pyconduit.Base.{
  ℕ, String, Bool, true, false, Eq, ◌==◌, string_eq, nat_eq, String-discrete, ◌≡◌, refl, Option,
  none, some, List, [], ◌∷◌, not,
}
use pyconduit.Base.Dict
use pyconduit.Base.Dict.{Dict}
use native.Mathlib.Decide.{ℕ_discrete}
use Prim.Native.String.{count}

mutual
  pub data Json : Type 0 where
    null : Json
    bool : Bool → Json
    int neg : ℕ → Json
    fraction : String → Json
    str : String → Json
    arr : Items → Json
    obj : Fields → Json

  pub data Items : Type 0 where
    nil : Items
    cons : Json → Items → Items

  pub data Fields : Type 0 where
    end : Fields
    field : String → Json → Fields → Fields

pub Json-discrete : Discrete Json
Json-discrete = hlevel (ℕ_discrete, String-discrete)

instance unfoldable pub json_eq : Eq Json
unfolding Json-discrete String-discrete
json_eq = record { dec = Json-discrete }

abbrev pub items_of : List Json → Items
items_of [] = nil
items_of (x ∷ xs) = cons x (items_of xs)

abbrev pub entries : Fields → Dict String Json
entries end = []
entries (field k v fs) = (k, v) ∷ entries fs

abbrev pub fields_of : Dict String Json → Fields
fields_of [] = end
fields_of ((k, v) ∷ d) = field k v (fields_of d)

-- A list display and a dict display.
abbrev pub array : List Json → Json
array xs = arr (items_of xs)

abbrev pub object : Dict String Json → Json
object d = obj (fields_of d)

pub entries-fields_of : (d : Dict String Json) → entries (fields_of d) ≡ d
entries-fields_of [] = refl
entries-fields_of ((k, v) ∷ d) = λ i. (k, v) ∷ entries-fields_of d i

-- `str | None`
abbrev pub optional : Option String → Json
optional none = null
optional (some s) = str s

-- `d.get(k)`: a missing key reads as `None`.
abbrev pub value_at : String → Dict String Json → Json
value_at k d = elim (Dict.get k d) [ none ↦ null | some v ↦ v ]

-- `bool(v)`
abbrev pub truthy : Json → Bool
truthy null = false
truthy (bool b) = b
truthy (int n) = not (n == 0)
truthy (neg n) = true
truthy (fraction t) = true
truthy (str s) = not (s == "")
truthy (arr nil) = false
truthy (arr (cons x xs)) = true
truthy (obj end) = false
truthy (obj (field k v fs)) = true

abbrev count_items : Items → ℕ
count_items nil = 0
count_items (cons x xs) = ℕ.suc (count_items xs)

abbrev count_fields : Fields → ℕ
count_fields end = 0
count_fields (field k v fs) = ℕ.suc (count_fields fs)

-- `len(v)`: `none` where Python raises a TypeError.
abbrev pub len : Json → Option ℕ
len (str s) = some (count s)
len (arr xs) = some (count_items xs)
len (obj fs) = some (count_fields fs)
len _ = none
