-- ===== src/Index/Reverse/Laws.antt =====
-- What the two operations of a reverse map do, told by the names that stand under a key afterwards.
use flowc.Prelude.{
  String, List, [], ◌∷◌, ◌++◌, Option, none, some, not, ◌&&◌, ◌||◌, ◌≡◌, ◌≢◌, refl, arith,
  string_eq, ◌==◌, ◌!=◌, if◌then◌else◌, contains, contains-append, IsUnique, IsUnique-snoc,
  remove_first, contains-remove_first, IsUnique-remove_first, remove_first_absent, eq_iff,
  Option-cases, inl, inr, if_rule,
}
use flowc.Dict
use flowc.Dict.{lookup, lookup-put, lookup-delete, put-put}
use flowc.Index.Reverse.{Reverse, refs, add_to_index, store_rest, remove_from_index, move_off}

-- No name stands twice under a key, and no key is kept for an empty list.
pub record IsTidy (idx : Reverse) : Type 0 where
  pub unique : (k : String) → IsUnique (refs k idx)
  pub nonempty : (k : String) → lookup k idx ≢ some []

contains-one : (a b : String) → contains (a ∷ []) b ≡ (a == b)
unfolding contains
contains-one a b = ground arith

remove_first-nil : (val : String) → remove_first val [] ≡ []
unfolding remove_first
remove_first-nil val = refl

-- The names under a key after an addition.
pub refs-add :
    (key val k : String) (idx : Reverse)
    → refs k (add_to_index key val idx) ≡ (
        if not (key == "") && key == k && not (contains (refs k idx) val)
        then refs k idx ++ val ∷ []
        else refs k idx)
unfolding add_to_index
refs-add key val k idx =
    ground (arith, lookup-put k key (refs key idx ++ val ∷ []) idx, eq_iff key k, eq_iff key "")

lookup-store_rest :
    (key k : String) (rest : List String) (idx : Reverse)
    → lookup k (store_rest key rest idx)
      ≡ (if key == k then elim rest [ [] ↦ none | x ∷ xs ↦ some (x ∷ xs) ] else lookup k idx)
unfolding store_rest
lookup-store_rest key k [] idx =
    ground (arith, lookup-delete k key (Dict.put key [] idx), lookup-put k key [] idx)
lookup-store_rest key k (x ∷ xs) idx = lookup-put k key (x ∷ xs) idx

refs-store_rest :
    (key k : String) (rest : List String) (idx : Reverse)
    → refs k (store_rest key rest idx) ≡ (if key == k then rest else refs k idx)
unfolding refs
refs-store_rest key k [] idx = ground (arith, lookup-store_rest key k [] idx)
refs-store_rest key k (x ∷ xs) idx = ground (arith, lookup-store_rest key k (x ∷ xs) idx)

-- The names under a key after a removal: the name goes where it stood first.
pub refs-remove :
    (key val k : String) (idx : Reverse)
    → refs k (remove_from_index key val idx)
      ≡ (if not (key == "") && key == k then remove_first val (refs k idx) else refs k idx)
unfolding remove_from_index refs
refs-remove key val k idx = elim (Option-cases (lookup key idx)) [
  | inl missing ↦ ground (arith, eq_iff key k, remove_first-nil val)
  | inr (cur, found) ↦ ground (
    arith,
    eq_iff key k,
    refs-store_rest key k (remove_first val cur) idx,
    remove_first_absent val cur,
  )
]

store_rest_nonempty :
    (key k : String) (rest : List String) (idx : Reverse)
    → lookup k idx ≢ some []
    → lookup k (store_rest key rest idx) ≢ some []
store_rest_nonempty key k [] idx h = ground (arith, lookup-store_rest key k [] idx, h)
store_rest_nonempty key k (x ∷ xs) idx h = ground (arith, lookup-store_rest key k (x ∷ xs) idx, h)

snoc-ne-nil : (xs : List String) (x : String) → xs ++ x ∷ [] ≢ []
snoc-ne-nil [] x = cc
snoc-ne-nil (y ∷ xs) x = cc

pub IsTidy-add : (key val : String) {idx : Reverse} → IsTidy idx → IsTidy (add_to_index key val idx)
unfolding add_to_index
IsTidy-add key val {idx} t = record {
  unique = λ k. rw (refs-add key val k idx) (
      if_rule IsUnique (not (key == "") && key == k && not (contains (refs k idx) val))
        (λ h. IsUnique-snoc (refs k idx) val (t.unique k) (ground arith)) (λ h. t.unique k));
  nonempty = λ k. ground (
    arith,
    t.nonempty k,
    lookup-put k key (refs key idx ++ val ∷ []) idx,
    snoc-ne-nil (refs key idx) val,
  );
}

pub IsTidy-remove :
    (key val : String) {idx : Reverse} → IsTidy idx → IsTidy (remove_from_index key val idx)
unfolding remove_from_index
IsTidy-remove key val {idx} t = record {
  unique = λ k. rw (refs-remove key val k idx) (
      if_rule IsUnique (not (key == "") && key == k)
        (λ h. IsUnique-remove_first val (refs k idx) (t.unique k)) (λ h. t.unique k));
  nonempty = λ k. elim (Option-cases (lookup key idx)) [
    | inl missing ↦ ground (arith, t.nonempty k)
    | inr (cur, found) ↦
        ground
          (arith, t.nonempty k, store_rest_nonempty key k (remove_first val cur) idx (t.nonempty k))
  ];
}

pub IsTidy-move_off :
    (old : Option String) (key val : String) {idx : Reverse}
    → IsTidy idx
    → IsTidy (move_off old key val idx)
unfolding move_off
IsTidy-move_off none key val t = t
IsTidy-move_off (some old) key val {idx} t =
    if_rule IsTidy (old != key) (λ h. IsTidy-remove old val t) (λ h. t)

-- The same, told by membership: an addition adds one name under one key, unless the key is empty,
-- and a removal takes it away.
pub contains-add :
    (key val k n : String) (idx : Reverse)
    → contains (refs k (add_to_index key val idx)) n
      ≡ (contains (refs k idx) n || (not (key == "") && key == k && val == n))
contains-add key val k n idx =
    rw (refs-add key val k idx)
      (ground (arith, contains-append (refs k idx) (val ∷ []) n, contains-one val n, eq_iff val n))

pub contains-remove :
    (key val k n : String) {idx : Reverse}
    → IsTidy idx
    → contains (refs k (remove_from_index key val idx)) n
      ≡ (contains (refs k idx) n && not (not (key == "") && key == k && val == n))
contains-remove key val k n {idx} t =
    rw (refs-remove key val k idx)
      (ground (arith, contains-remove_first val n (refs k idx) (t.unique k)))
