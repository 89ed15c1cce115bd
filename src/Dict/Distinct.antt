-- ===== src/Dict/Distinct.antt =====
-- Maps have one entry for a key, and a loop over a map visits the values that its keys lead to.
use mathlib.Core.List.{Memᴰ}
use flowc.Prelude.{
  [], ◌∷◌, none, some, Eq, ◌==◌, ◌≡◌, ◌↔◌, arith, Bool-cases, inl, inr, eq_self, ap, sym,
}
use flowc.Dict.Defs.{Dict, lookup, delete, put, values}
use flowc.Dict.Laws.{lookup-delete}

module _ {ℓ κ} {K : Type ℓ} {V : Type κ} ⦃e : Eq K⦄ where
  -- A map has at most one entry for a key.
  abbrev pub IsDistinct : Dict K V → Type κ
  IsDistinct [] = Unit
  IsDistinct ((k, v) ∷ m) = (lookup k m ≡ none) × IsDistinct m

  pub IsDistinct-delete : (k : K) (m : Dict K V) → IsDistinct m → IsDistinct (delete k m)
  unfolding delete
  IsDistinct-delete k [] d = tt
  IsDistinct-delete k ((j, v) ∷ m) d = elim (Bool-cases (j == k)) [
    | inl same ↦ rw same (IsDistinct-delete k m d.1)
    | inr other ↦ rw other (ground (arith, lookup-delete j k m), IsDistinct-delete k m d.1)
  ]

  pub IsDistinct-put : (k : K) (v : V) (m : Dict K V) → IsDistinct m → IsDistinct (put k v m)
  unfolding put
  IsDistinct-put k v m d = (ground (arith, lookup-delete k k m, eq_self k), IsDistinct-delete k m d)

  lookup_of_values :
      (m : Dict K V) → IsDistinct m → {v : V} → Memᴰ v (values m) → (k : K) × (lookup k m ≡ some v)
  unfolding lookup values
  lookup_of_values [] d h = elim h [ ]
  lookup_of_values ((j, w) ∷ m) d (Memᴰ.head p) = (j, rw (eq_self j) (ap some (sym p)))
  lookup_of_values ((j, w) ∷ m) d (Memᴰ.tail h) =
      let (k, found) = lookup_of_values m d.1 h in (k, ground (arith, e.eqb_iff j k, d.0))

  values_of_lookup : (m : Dict K V) (k : K) {v : V} → lookup k m ≡ some v → Memᴰ v (values m)
  unfolding lookup values
  values_of_lookup [] k h = cc
  values_of_lookup ((j, w) ∷ m) k {v} h = elim (Bool-cases (j == k)) [
    | inl same ↦ Memᴰ.head (ground arith)
    | inr other ↦ Memᴰ.tail (values_of_lookup m k (ground arith))
  ]

  -- A loop over a map visits the values that its keys lead to, and no others.
  pub values-mem :
      (m : Dict K V) (v : V) → IsDistinct m → Memᴰ v (values m) ↔ ((k : K) × (lookup k m ≡ some v))
  values-mem m v d = (λ h. lookup_of_values m d h, λ h. values_of_lookup m h.0 h.1)
