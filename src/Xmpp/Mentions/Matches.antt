-- ===== src/Xmpp/Mentions/Matches.antt =====
-- `_mentions` against a description of the texts that mention a nick.
use pyconduit.Base.{ℕ, String, string_eq, nat_eq, Bool, true, false, ◌≡◌, ◌≢◌}
use Prim.Native.Char.{Char, code}
use Prim.Native.String.{[], ◌∷◌, ◌++◌}
use pyconduit.Xmpp.Library.{Letters}

module _ (letters : Letters) where
  -- Two texts that are the same but for case.
  abbrev pub SameText : String → String → Type 0
  SameText [] [] = Unit {0}
  SameText [] (x ∷ s) = ⊥
  SameText (n ∷ nick) [] = ⊥
  SameText (n ∷ nick) (x ∷ s) = (letters.same_letter (code n) (code x) ≡ true) × SameText nick s

  abbrev pub last_of : ℕ → String → ℕ
  last_of c [] = c
  last_of c (x ∷ s) = last_of (code x) s

  abbrev pub begins_word : String → Bool
  begins_word [] = false
  begins_word (x ∷ s) = letters.is_word (code x)

  -- `\b`: a character of a word stands on exactly one side.
  abbrev pub IsEdge : ℕ → String → Type 0
  IsEdge last s = letters.is_word last ≢ begins_word s

  -- The text has an at-sign with the nick after it, but for case, and a word boundary there.
  pub record Mentions (nick body : String) : Type 0 where
    pub before : String
    pub at : Char
    pub hit : String
    pub rest : String
    pub parts : body ≡ before ++ (at ∷ (hit ++ rest))
    pub is_at : code at ≡ b'@'
    pub same : SameText nick hit
    pub ended : IsEdge (last_of (code at) hit) rest

  -- What a match of the nick has read.
  record Read (last : ℕ) (nick s : String) (found : ℕ) (rest : String) : Type 0 where
    hit : String
    parts : s ≡ hit ++ rest
    same : SameText nick hit
    ends : last_of last hit ≡ found
