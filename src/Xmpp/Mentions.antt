-- ===== src/Xmpp/Mentions.antt =====
-- src/pyconduit/xmpp/slixmpp_client.py: `_mentions`. The pattern `@nick\b` has one way to match at a
-- place, character by character.
pub mod Matches
use pyconduit.Base.{
  ℕ, String, string_eq, nat_eq, ◌==◌, Bool, true, false, not, ◌&&◌, ◌||◌, if◌then◌else◌, Option,
  none, some,
}
use Prim.Native.Char.{code}
use Prim.Native.String.{[], ◌∷◌}
use pyconduit.Json.{Json, str, truthy}
use pyconduit.Xmpp.Library.{Letters}

module _ (letters : Letters) where
  -- What is left of a text after the nick, with the last character that was matched.
  unfoldable pub after_nick : ℕ → String → String → Option (ℕ × String)
  after_nick last [] s = some (last, s)
  after_nick last (n ∷ nick) [] = none
  after_nick last (n ∷ nick) (x ∷ s) =
      if letters.same_letter (code n) (code x) then after_nick (code x) nick s else none

  -- `\b` between a character and the text after it.
  unfoldable pub is_boundary : ℕ → String → Bool
  is_boundary last [] = letters.is_word last
  is_boundary last (x ∷ s) =
      if letters.is_word last then not (letters.is_word (code x)) else letters.is_word (code x)

  abbrev pub ends_there : Option (ℕ × String) → Bool
  ends_there none = false
  ends_there (some (last, s)) = is_boundary last s

  -- `re.search`
  unfoldable pub mentioned : String → String → Bool
  mentioned nick [] = false
  mentioned nick (x ∷ s) =
      (code x == b'@' && ends_there (after_nick (code x) nick s)) || mentioned nick s

  -- `none` is the TypeError of a nick that is no text.
  unfoldable pub mentions : Option Json → String → Option Bool
  mentions none body = some false
  mentions (some (str nick)) body = if nick == "" then some false else some (mentioned nick body)
  mentions (some v) body = if truthy v then none else some false
