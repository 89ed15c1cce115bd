-- ===== src/Dict/Laws.antt =====
-- What the map operations promise: each is told by the lookups after it. The laws are stated with a
-- test, so they have no side condition.
use flowc.Prelude.{
  [], ◌∷◌, none, some, Eq, ◌==◌, if◌then◌else◌, ◌≡◌, refl, arith, Bool-cases, inl, inr, ap, eq_self,
}
use flowc.Dict.Defs.{Dict, lookup, delete, put}

module _ {ℓ κ} {K : Type ℓ} {V : Type κ} ⦃e : Eq K⦄ where
  pub lookup-delete :
      (j k : K) (m : Dict K V) → lookup j (delete k m) ≡ (if k == j then none else lookup j m)
  unfolding lookup delete
  lookup-delete j k [] = ground arith
  lookup-delete j k ((i, v) ∷ m) =
      ground (arith, lookup-delete j k m, e.eqb_iff i k, e.eqb_iff i j, e.eqb_iff k j)

  pub lookup-put :
      (j k : K) (v : V) (m : Dict K V)
      → lookup j (put k v m) ≡ (if k == j then some v else lookup j m)
  unfolding lookup put
  lookup-put j k v m = ground (arith, lookup-delete j k m)

  pub lookup-put_self : (k : K) (v : V) (m : Dict K V) → lookup k (put k v m) ≡ some v
  lookup-put_self k v m = ground (arith, lookup-put k k v m, eq_self k)

  pub delete-delete : (k : K) (m : Dict K V) → delete k (delete k m) ≡ delete k m
  unfolding delete
  delete-delete k [] = refl
  delete-delete k ((j, v) ∷ m) = elim (Bool-cases (j == k)) [
    | inl same ↦ rw same (delete-delete k m)
    | inr other ↦ rw other (rw other (ap (λ r. (j, v) ∷ r) (delete-delete k m)))
  ]

  pub put-put : (k : K) (v w : V) (m : Dict K V) → put k v (put k w m) ≡ put k v m
  unfolding put
  put-put k v w m = rw (eq_self k) (ap (λ r. (k, v) ∷ r) (delete-delete k m))

  -- What is not there need not be deleted.
  pub delete_absent : (k : K) (m : Dict K V) → lookup k m ≡ none → delete k m ≡ m
  unfolding lookup delete
  delete_absent k [] h = refl
  delete_absent k ((j, v) ∷ m) h = ground (arith, delete_absent k m)

pub ruleset dict_laws = (lookup-delete, lookup-put)
