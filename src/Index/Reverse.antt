-- ===== src/Index/Reverse.antt =====
-- index.go: addToIndex and removeFromIndex on a reverse map, from a key to the names that refer to
-- it. `refs` is Go's read `idx[key]`, which is empty where the key is missing.
pub mod Laws
pub mod Mirror
use flowc.Prelude.{
  String, List, [], ◌∷◌, ◌++◌, Option, none, some, string_eq, ◌==◌, ◌!=◌, if◌then◌else◌, contains,
  remove_first,
}
use flowc.Dict
use flowc.Dict.{Dict, lookup}

abbrev pub Reverse : Type 0
Reverse = Dict String (List String)

abbrev pub names_of : Option (List String) → List String
names_of none = []
names_of (some names) = names

unfoldable pub refs : String → Reverse → List String
refs key idx = names_of (lookup key idx)

unfoldable pub add_to_index : String → String → Reverse → Reverse
unfolding refs
add_to_index key val idx =
    if key == ""
    then idx
    else if contains (refs key idx) val
    then idx
    else Dict.put key (refs key idx ++ val ∷ []) idx

-- idx[key] = rest, and the key goes when nothing is left.
unfoldable pub store_rest : String → List String → Reverse → Reverse
store_rest key [] idx = Dict.delete key (Dict.put key [] idx)
store_rest key (x ∷ rest) idx = Dict.put key (x ∷ rest) idx

unfoldable pub remove_from_index : String → String → Reverse → Reverse
unfolding store_rest
remove_from_index key val idx = if key == "" then idx else elim (lookup key idx) [
  | none ↦ idx
  | some cur ↦ if contains cur val then store_rest key (remove_first val cur) idx else idx
]

-- The removal that an update makes before it adds the name under its new key: only where there was
-- an old key, and it is another.
unfoldable pub move_off : Option String → String → String → Reverse → Reverse
move_off none key val idx = idx
move_off (some old) key val idx = if old != key then remove_from_index old val idx else idx
