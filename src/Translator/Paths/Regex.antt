-- ===== src/Translator/Paths/Regex.antt =====
-- convertPathToRegex of strategy_routematch.go: the text that it writes reads, as a regular
-- expression, as the template that it was given.
use Prim.Native.Char.{Char, code}
use Prim.Native.String.{◌++◌ as join}
use flowc.Prelude.{
  ℕ, String, List, contains, [], ◌∷◌, Bool, true, false, ◌≡◌, nat_eq, ◌==◌, if◌then◌else◌,
}
use flowc.Translator.Paths.{next_in_param}
use flowc.Translator.Paths.Templates.{Piece, lit, param}

-- The characters with a meaning in a regular expression of RE2.
abbrev pub metacharacters : List ℕ
metacharacters =
    b'.' ∷ b'*' ∷ b'+' ∷ b'?' ∷ b'^' ∷ b'$' ∷ b'(' ∷ b')' ∷ b'[' ∷ b']' ∷ b'|' ∷ b'\\' ∷ b'{' ∷ b'}'
    ∷ []

-- How Envoy reads a regular expression of this form: a character without a meaning of its own
-- stands for itself, an escaped one too, and "[^/]+" for a segment.
pub data Reads : String → List Piece → Type 0 where
  end : Reads "" []
  plain :
      (c : Char) {r : String} {ps : List Piece}
      → contains metacharacters (code c) ≡ false
      → Reads r ps
      → Reads (String.◌∷◌ c r) (lit c ∷ ps)
  escaped :
      (c : Char) {r : String} {ps : List Piece} (t : String)
      → contains metacharacters (code c) ≡ true
      → t ≡ join "\\" (String.◌∷◌ c r)
      → Reads r ps
      → Reads t (lit c ∷ ps)
  segment :
      {r : String} {ps : List Piece} (t : String)
      → t ≡ join "[^/]+" r
      → Reads r ps
      → Reads t (param ∷ ps)

-- The template has no backslash outside its braces.
abbrev pub NoBackslash : Bool → String → Type 0
NoBackslash in_param String.[] = Unit
NoBackslash in_param (String.◌∷◌ c s) =
    (in_param ≡ false → (code c == b'\\') ≡ false) × NoBackslash (next_in_param in_param (code c)) s

-- One round appends the regular expression of one piece, or nothing.
abbrev piece_of : Bool → Char → List Piece → List Piece
piece_of in_param c rest =
    if code c == b'{'
    then rest
    else if code c == b'}'
    then param ∷ rest
    else if in_param
    then rest
    else lit c ∷ rest
