-- ===== src/Index/Apply/Policies.antt =====
-- The reverse map of policies in index.go: exact as long as no policy that targets an API is turned
-- to another kind under the same target name, and stale after such an update.
use mathlib.Core.Option
use flowc.Prelude.{
  String, Option, none, some, true, false, ◌≡◌, ◌≢◌, ◌⊎◌, ◌∙◌, sym, ap, refl, arith, string_eq,
  if◌then◌else◌, contains, eq_iff, eq_self, Bool-cases, inl, inr,
}
use flowc.Dict.{lookup, lookup-put_self}
use flowc.V1alpha1.Spec.{ApiPolicy}
use flowc.Index.Reverse.{Reverse, refs, add_to_index, remove_from_index, move_off}
use flowc.Index.Reverse.Mirror.{Mirrors, Mirrors-put}
use flowc.Index.State.{Indexer}
use flowc.Index.Apply.{put_api_policy, indexed_target, targets_api, target}

-- The API that a policy refers to; the empty text is no reference.
abbrev pub api_ref : ApiPolicy → String
api_ref p = if targets_api p then target p else ""

abbrev pub PoliciesMirror : Indexer → Type 0
PoliciesMirror idx = Mirrors api_ref idx.api_policies idx.api_policies_by_target_api

-- The update does not turn a policy from an API to another kind under one target name.
abbrev pub KeepsTarget : Option ApiPolicy → ApiPolicy → Type 0
KeepsTarget none pol = Unit
KeepsTarget (some old) pol =
    (targets_api pol ≡ true) ⊎ (targets_api old ≡ false) ⊎ (target old ≢ target pol)

-- The empty key is no reference, for any of the operations.
add-empty : (name : String) (r : Reverse) → add_to_index "" name r ≡ r
unfolding add_to_index
add-empty name r = refl

move_off-empty : (key name : String) (r : Reverse) → move_off (some "") key name r ≡ r
unfolding move_off remove_from_index
move_off-empty key name r = ground arith

-- An old policy is taken off its target, if that was an API.
move_off-indexed :
    (o : Option ApiPolicy) (key name : String) (r : Reverse)
    → move_off (indexed_target o) key name r ≡ move_off (Option.map api_ref o) key name r
unfolding indexed_target move_off
move_off-indexed none key name r = refl
move_off-indexed (some old) key name r = elim (Bool-cases (targets_api old)) [
  | inl api ↦ rw api
  | inr other ↦ rw (other, move_off) (sym (move_off-empty key name r))
]

-- Turned from an API to another kind under another name, it is taken off too.
move_off-turned :
    (o : Option ApiPolicy) (pol : ApiPolicy) (name : String) (r : Reverse)
    → targets_api pol ≡ false
    → KeepsTarget o pol
    → move_off (indexed_target o) (target pol) name r ≡ move_off (Option.map api_ref o) "" name r
unfolding indexed_target move_off remove_from_index
move_off-turned none pol name r other k = refl
move_off-turned (some old) pol name r other k = elim (Bool-cases (targets_api old)) [
  | inl api ↦ rw api (ground (arith, eq_iff (target old) (target pol), eq_iff (target old) ""))
  | inr not_api ↦ rw not_api
]

-- With such an update the three operations are those of a mirrored map.
relink_policy :
    (name : String) (o : Option ApiPolicy) (pol : ApiPolicy) (r : Reverse)
    → KeepsTarget o pol
    → (if targets_api pol
        then add_to_index (target pol) name (move_off (indexed_target o) (target pol) name r)
        else move_off (indexed_target o) (target pol) name r)
      ≡ add_to_index (api_ref pol) name (move_off (Option.map api_ref o) (api_ref pol) name r)
relink_policy name o pol r k = elim (Bool-cases (targets_api pol)) [
  | inl api ↦ rw api (ap (add_to_index (target pol) name) (move_off-indexed o (target pol) name r))
  | inr other ↦ rw other (
      move_off-turned o pol name r other k
      ∙ sym (add-empty name (move_off (Option.map api_ref o) "" name r)))
]

-- A put keeps the reverse map of policies exact, unless it turns a policy that targets an API to
-- another kind under the same target name.
pub put_policy-Mirrors :
    (name : String) (pol : ApiPolicy) (idx : Indexer)
    → KeepsTarget (lookup name idx.api_policies) pol
    → PoliciesMirror idx
    → PoliciesMirror (put_api_policy name (some pol) idx).1
unfolding put_api_policy
put_policy-Mirrors name pol idx k m =
    rw (relink_policy name (lookup name idx.api_policies) pol idx.api_policies_by_target_api k)
      (Mirrors-put api_ref name pol m)

-- With an exact reverse map of policies, a put that turns a stored policy from an API to another
-- kind and keeps the target name, which is not empty, leaves the policy listed under the API that
-- it no longer targets.
pub put_policy_stale :
    (name : String) (old pol : ApiPolicy) (idx : Indexer)
    → PoliciesMirror idx
    → lookup name idx.api_policies ≡ some old
    → targets_api old ≡ true
    → targets_api pol ≡ false
    → target old ≡ target pol
    → target pol ≢ ""
    → let idx' = (put_api_policy name (some pol) idx).1 in
      (contains (refs (target pol) idx'.api_policies_by_target_api) name ≡ true)
      × (lookup name idx'.api_policies ≡ some pol)
unfolding put_api_policy indexed_target move_off
put_policy_stale name old pol idx m found was is_ same named = (
  ground (
    arith,
    m.exact (target pol) name,
    eq_iff (target old) (target pol),
    eq_self (target pol),
    eq_iff (target pol) "",
    eq_iff (target old) (target old),
  ),
  lookup-put_self name pol idx.api_policies,
)
