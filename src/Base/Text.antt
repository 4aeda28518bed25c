-- ===== src/Base/Text.antt =====
-- The methods of Python's `str` that the program uses, on native strings.
use Prim.Native.Nat.{ℕ, compare, Ordering}
use Prim.Native.Char.{Char, code}
use Prim.Native.String.{String, [], ◌∷◌, ◌++◌}
use text.Mathlib.TextLemmas.{nil-append, cons-append}
use pyconduit.Base.Equality.{Bool-cases, ◌==◌, if◌then◌else◌, nat_eq}
use mathlib.Core.Path.{◌≡◌, refl, sym, ap, ◌∙◌}
use mathlib.Core.Logic.{◌≢◌, inl, inr}
use mathlib.Core.Bool.{Bool, true, false, ◌||◌, ◌&&◌}
use native.Mathlib.Omega.{arith}

-- `s.split(c, 1)[0]`
unfoldable pub before : ℕ → String → String
before c [] = []
before c (x ∷ s) = if code x == c then [] else x ∷ before c s

after_or : String → ℕ → String → String
after_or whole c [] = whole
after_or whole c (x ∷ s) = if code x == c then s else after_or whole c s

-- `s.split(c, 1)[-1]`: the whole text where there is no `c`.
unfoldable pub after : ℕ → String → String
unfolding after_or
after c s = after_or s c s

-- `c not in s`
abbrev pub Without : ℕ → String → Type 0
Without c [] = Unit {0}
Without c (x ∷ s) = (code x ≢ c) × Without c s

abbrev leb : ℕ → ℕ → Bool
leb a b = elim (compare a b) [ Ordering.gt ↦ false | _ ↦ true ]

-- `str.isspace` of a character
unfoldable pub is_space : ℕ → Bool
is_space c =
    (leb 9 c && leb c 13)
    || ((leb 28 c && leb c 32)
        || (c == 133
            || (c == 160
                || (c == 5760
                    || ((leb 8192 c && leb c 8202)
                        || (c == 8232
                            || (c == 8233 || (c == 8239 || (c == 8287 || c == 12288)))))))))

strip_left : String → String
strip_left [] = []
strip_left (x ∷ s) = if is_space (code x) then strip_left s else x ∷ s

unfoldable pub keep_right : Char → String → String
keep_right x [] = if is_space (code x) then [] else x ∷ []
keep_right x (y ∷ s) = x ∷ y ∷ s

-- `s.rstrip()`
unfoldable pub strip_right : String → String
unfolding keep_right
strip_right [] = []
strip_right (x ∷ s) = keep_right x (strip_right s)

-- `s.strip()`
unfoldable pub strip : String → String
unfolding strip_left
strip s = strip_left (strip_right s)

-- The part before the first `c` holds no `c`, and the rest of the text begins with it.
pub before-Without : (c : ℕ) (s : String) → Without c (before c s)
unfolding before
before-Without c [] = tt
before-Without c (x ∷ s) = elim (Bool-cases (code x == c)) [
  | inl found ↦ rw found tt
  | inr other ↦ rw other ((λ e. ground arith), before-Without c s)
]

pub before_of_Without : (c : ℕ) (s : String) → Without c s → before c s ≡ s
unfolding before
before_of_Without c [] h = refl
before_of_Without c (x ∷ s) h = ground (arith, before_of_Without c s)

-- `before c (s ++ c ++ t)` is `s` where `s` has no `c`.
pub before-append :
    (c : Char) (s t : String) → Without (code c) s → before (code c) (s ++ (c ∷ t)) ≡ s
unfolding before
before-append c [] t h = rw nil-append (ground arith)
before-append c (x ∷ s) t h = rw cons-append (ground (arith, before-append c s t))

after_or-append :
    (whole : String) (c : Char) (s t : String)
    → Without (code c) s
    → after_or whole (code c) (s ++ (c ∷ t)) ≡ t
unfolding after_or
after_or-append whole c [] t h = rw nil-append (ground arith)
after_or-append whole c (x ∷ s) t h = rw cons-append (ground (arith, after_or-append whole c s t))

pub after-append :
    (c : Char) (s t : String) → Without (code c) s → after (code c) (s ++ (c ∷ t)) ≡ t
unfolding after
after-append c s t h = after_or-append (s ++ (c ∷ t)) c s t h

after_or_of_Without :
    (whole : String) (c : ℕ) (s : String) → Without c s → after_or whole c s ≡ whole
unfolding after_or
after_or_of_Without whole c [] h = refl
after_or_of_Without whole c (x ∷ s) h = ground (arith, after_or_of_Without whole c s)

pub after_of_Without : (c : ℕ) (s : String) → Without c s → after c s ≡ s
unfolding after
after_of_Without c s h = after_or_of_Without s c s h

pub before-skip : (c : ℕ) (s t : String) → Without c s → before c (s ++ t) ≡ s ++ before c t
unfolding before
before-skip c [] t h = ap (before c) (nil-append t) ∙ sym (nil-append (before c t))
before-skip c (x ∷ s) t h =
    rw (cons-append x s t, cons-append x s (before c t))
      (elim (Bool-cases (code x == c)) [
        | inl found ↦ absurd (h.0 (ground arith))
        | inr other ↦ rw other (λ i. x ∷ before-skip c s t h.1 i)
      ])

pub Without-append : (c : ℕ) (s t : String) → Without c s → Without c t → Without c (s ++ t)
Without-append c [] t h k = rw nil-append k
Without-append c (x ∷ s) t h k = rw cons-append (h.0, Without-append c s t h.1 k)

-- A text of one character in front.
pub one-append : (c : Char) (s : String) → (c ∷ []) ++ s ≡ c ∷ s
one-append c s = cons-append c [] s ∙ (λ i. c ∷ nil-append s i)

pub append-ne-nil : (s : String) (c : Char) (t : String) → (s ++ (c ∷ t)) ≢ []
append-ne-nil [] c t e = cc (sym (nil-append (c ∷ t)) ∙ e)
append-ne-nil (x ∷ s) c t e = cc (sym (cons-append x s (c ∷ t)) ∙ e)
