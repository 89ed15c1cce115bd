-- ===== src/Index/Reverse/Mirror.antt =====
-- A reverse map mirrors a primary map: under each key stand exactly the names of the resources that
-- refer to it. The updates that the appliers of index.go make keep this, whatever the resource.
use mathlib.Core.Option
use flowc.Prelude.{
  String, Option, none, some, Bool, false, not, ◌&&◌, ◌≡◌, arith, string_eq, ◌==◌, contains, eq_iff,
  Option-cases, inl, inr,
}
use flowc.Dict
use flowc.Dict.{Dict, lookup, lookup-put, lookup-delete, put-put}
use flowc.Index.Reverse.{Reverse, refs, add_to_index, remove_from_index, move_off}
use flowc.Index.Reverse.Laws.{
  IsTidy, IsTidy-add, IsTidy-remove, IsTidy-move_off, contains-add, contains-remove,
}

module _ {A : Type 0} (f : A → String) where
  -- The resource under a name refers to the key. The empty key is no reference.
  abbrev pub points : String → Option A → Bool
  points k none = false
  points k (some a) = not (k == "") && f a == k

  pub record Mirrors (primary : Dict String A) (idx : Reverse) : Type 0 where
    pub tidy : IsTidy idx
    pub exact : (k n : String) → contains (refs k idx) n ≡ points k (lookup n primary)

  -- The names under a key once the old reference is taken off: the others.
  move_off_exact :
      (name new k n : String) {primary : Dict String A} {idx : Reverse}
      → Mirrors primary idx
      → contains (refs k (move_off (Option.map f (lookup name primary)) new name idx)) n
        ≡ (points k (lookup n primary) && not (name == n && not (new == k)))
  unfolding move_off
  move_off_exact name new k n {primary} {idx} m = elim (Option-cases (lookup name primary)) [
    | inl missing ↦ ground (arith, m.exact k n, eq_iff name n)
    | inr (old, found) ↦ ground (
      arith,
      contains-remove (f old) name k n m.tidy,
      m.exact k n,
      eq_iff name n,
      eq_iff (f old) new,
      eq_iff (f old) k,
      eq_iff (f old) "",
      eq_iff new k,
      eq_iff k "",
    )
  ]

  pub Mirrors-put :
      (name : String) (a : A) {primary : Dict String A} {idx : Reverse}
      → Mirrors primary idx
      → Mirrors
          (Dict.put name a primary)
          (add_to_index (f a) name (move_off (Option.map f (lookup name primary)) (f a) name idx))
  Mirrors-put name a {primary} {idx} m = record {
    tidy = IsTidy-add (f a) name (IsTidy-move_off _ (f a) name m.tidy);
    exact = λ k n. ground (
      arith,
      contains-add (f a) name k n (move_off (Option.map f (lookup name primary)) (f a) name idx),
      move_off_exact name (f a) k n m,
      lookup-put n name a primary,
      eq_iff name n,
      eq_iff (f a) k,
      eq_iff (f a) "",
      eq_iff k "",
    );
  }

  pub Mirrors-delete :
      (name : String) {old : A} {primary : Dict String A} {idx : Reverse}
      → lookup name primary ≡ some old
      → Mirrors primary idx
      → Mirrors (Dict.delete name primary) (remove_from_index (f old) name idx)
  Mirrors-delete name {old} {primary} {idx} found m = record {
    tidy = IsTidy-remove (f old) name m.tidy;
    exact = λ k n. ground (
      arith,
      contains-remove (f old) name k n m.tidy,
      m.exact k n,
      lookup-delete n name primary,
      eq_iff name n,
      eq_iff (f old) k,
      eq_iff k "",
    );
  }
