-- ===== src/Translator/Paths.antt =====
-- Path handling: TruncatePathParams and convertPathToRegex of strategy_routematch.go, and
-- normalizeBasePath of dispatch/translate.go. The tested characters are ASCII, so walking a text by
-- its characters is walking it by its bytes.
pub mod Templates
pub mod Joined
pub mod Regex
use mathlib.Core.Option
use Prim.Native.Char.{Char, code}
use Prim.Native.String.{◌++◌ as join}
use flowc.Prelude.{
  ℕ, String, Option, none, some, Bool, true, false, ◌||◌, ◌&&◌, not, string_eq, nat_eq, ◌==◌, ◌!=◌,
  if◌then◌else◌,
}

-- path[:idx] for idx = strings.Index(path, "{")
unfoldable pub before_brace : String → Option String
before_brace String.[] = none
before_brace (String.◌∷◌ c s) =
    let rest = before_brace s in
    if code c == b'{' then some String.[] else Option.map (String.◌∷◌ c) rest

-- if idx > 0 { return path[:idx] }; return path
unfoldable pub truncate_path_params : String → String
unfolding before_brace
truncate_path_params path = elim (before_brace path) [
  | none ↦ path
  | some start ↦ if start == "" then path else start
]

-- The characters that are escaped.
unfoldable pub is_special : ℕ → Bool
is_special c =
    c == b'.'
    || c == b'*'
    || c == b'+'
    || c == b'?'
    || c == b'^'
    || c == b'$'
    || c == b'('
    || c == b')'
    || c == b'['
    || c == b']'
    || c == b'|'

-- inParam after a character
unfoldable pub next_in_param : Bool → ℕ → Bool
next_in_param in_param c = if c == b'{' then true else if c == b'}' then false else in_param

-- What a round of the loop appends.
unfoldable pub emit : Bool → Char → String → String
unfolding is_special
emit in_param c rest =
    if code c == b'{'
    then rest
    else if code c == b'}'
    then join "[^/]+" rest
    else if in_param
    then rest
    else if is_special (code c)
    then join "\\" (String.◌∷◌ c rest)
    else String.◌∷◌ c rest

unfoldable pub convert_loop : Bool → String → String
unfolding emit next_in_param
convert_loop in_param String.[] = String.[]
convert_loop in_param (String.◌∷◌ c s) =
    emit in_param c (convert_loop (next_in_param in_param (code c)) s)

unfoldable pub convert_path_to_regex : String → String
unfolding convert_loop
convert_path_to_regex path = convert_loop false path

-- path[0] == '/'
unfoldable pub starts_with_slash : String → Bool
starts_with_slash String.[] = false
starts_with_slash (String.◌∷◌ c s) = code c == b'/'

-- path[len(path)-1] == '/'
unfoldable pub ends_with_slash : String → Bool
ends_with_slash String.[] = false
ends_with_slash (String.◌∷◌ c s) =
    let rest = ends_with_slash s in elim s [ String.[] ↦ code c == b'/' | String.◌∷◌ d t ↦ rest ]

-- path[:len(path)-1]
unfoldable pub drop_last : String → String
drop_last String.[] = String.[]
drop_last (String.◌∷◌ c s) =
    let rest = drop_last s in elim s [ String.[] ↦ String.[] | String.◌∷◌ d t ↦ String.◌∷◌ c rest ]

-- "/" + path
unfoldable pub with_slash : String → String
unfolding starts_with_slash
with_slash path = if starts_with_slash path then path else join "/" path

-- The trailing slash of a path of more than one byte.
unfoldable pub without_slash : String → String
unfolding ends_with_slash drop_last
without_slash path = if path != "/" && ends_with_slash path then drop_last path else path

unfoldable pub normalize_base_path : String → String
unfolding with_slash without_slash
normalize_base_path path = if path == "" || path == "/" then "" else with_slash (without_slash path)
