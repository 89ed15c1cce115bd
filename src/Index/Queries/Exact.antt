-- ===== src/Index/Queries/Exact.antt =====
-- The lookups by reference of index.go return exactly the resources that refer to the key.
use mathlib.Core.List.Memᴰ
use mathlib.Core.List.{Memᴰ}
use flowc.Prelude.{
  String, List, [], ◌∷◌, some, true, ◌≡◌, ◌≢◌, ◌↔◌, arith, string_eq, ◌==◌, contains, eq_iff,
  eq_self, Option-cases, Bool-cases, inl, inr, ap, sym, ◌∙◌,
}
use flowc.Dict.{Dict, lookup}
use flowc.V1alpha1.Spec.{Listener, Deployment}
use flowc.Index.Reverse.{Reverse, refs}
use flowc.Index.Reverse.Mirror.{Mirrors}
use flowc.Index.State.{Indexer, gateway_ref, gateway_of, api_of, listener_of}
use flowc.Index.Apply.Consistency.{IsConsistent}
use flowc.Index.Queries.{
  collect, listeners_for_gateway, deployments_for_gateway, deployments_for_api,
  deployments_for_listener,
}

module _ {A : Type 0} (primary : Dict String A) {a : A} where
  collect_sound :
      (names : List String)
      → Memᴰ a (collect names primary)
      → (n : String) × (contains names n ≡ true) × (lookup n primary ≡ some a)
  unfolding collect contains
  collect_sound [] m = elim m [ ]
  collect_sound (k ∷ names) m =
      let below = collect_sound names in
      let further : Memᴰ a (collect names primary)
          → (n : String) × (contains (k ∷ names) n ≡ true) × (lookup n primary ≡ some a) =
        λ d. let (n, h, found) = below d in (n, ground arith, found) in
      elim (Option-cases (lookup k primary)) [
        | inl missing ↦ further (rw (missing, collect) at m)
        | inr (v, present) ↦ elim (Memᴰ.cases_cons (rw (present, collect) at m)) [
          | inl p ↦ (k, ground (arith, eq_self k), present ∙ ap some (sym p))
          | inr d ↦ further d
        ]
      ]

  collect_complete :
      (names : List String) (n : String)
      → contains names n ≡ true
      → lookup n primary ≡ some a
      → Memᴰ a (collect names primary)
  unfolding collect contains
  collect_complete [] n h found = cc
  collect_complete (k ∷ names) n h found =
      let below = collect_complete names n in
      elim (Option-cases (lookup k primary)) [
        | inl missing ↦ rw (missing, collect) (below (ground (arith, eq_iff k n)) found)
        | inr (v, present) ↦
            rw (present, collect)
              (elim (Bool-cases (k == n)) [
                | inl same ↦ Memᴰ.head (ground (arith, eq_iff k n))
                | inr other ↦ Memᴰ.tail (below (ground arith) found)
              ])
      ]

-- The resources that refer to a key: of a mirrored map, exactly what the lookup returns.
collect-Mirrors :
    {A : Type 0} (f : A → String) (key : String) (a : A) {primary : Dict String A} {idx : Reverse}
    → Mirrors f primary idx
    → Memᴰ a (collect (refs key idx) primary)
      ↔ ((n : String) × (lookup n primary ≡ some a) × (f a ≡ key) × (key ≢ ""))
collect-Mirrors f key a {primary} {idx} m = (
  λ d.
      let (n, listed, found) = collect_sound primary (refs key idx) d in
      (
        n,
        found,
        ground (arith, m.exact key n, eq_iff (f a) key),
        ground (arith, m.exact key n, eq_iff key ""),
      ),
  λ (n, found, refers, named).
      collect_complete primary (refs key idx) n
        (ground (arith, m.exact key n, eq_iff (f a) key, eq_iff key "")) found,
)

-- In a consistent index each lookup by reference returns exactly the stored resources whose own
-- reference names the key: nothing stale, nothing missing. The empty key has none.
pub lookups_exact :
    (idx : Indexer) (key : String)
    → IsConsistent idx
    → ((l : Listener)
        → Memᴰ l (listeners_for_gateway key idx)
          ↔ ((n : String) × (lookup n idx.listeners ≡ some l) × (gateway_ref l ≡ key) × (key ≢ "")))
      × ((d : Deployment)
          → Memᴰ d (deployments_for_gateway key idx) ↔ (
              (n : String) × (lookup n idx.deployments ≡ some d)
              × (gateway_of d ≡ key)
              × (key ≢ "")))
      × ((d : Deployment)
          → Memᴰ d (deployments_for_api key idx)
            ↔ ((n : String) × (lookup n idx.deployments ≡ some d) × (api_of d ≡ key) × (key ≢ "")))
      × ((d : Deployment)
          → Memᴰ d (deployments_for_listener key idx) ↔ (
              (n : String) × (lookup n idx.deployments ≡ some d)
              × (listener_of d ≡ key)
              × (key ≢ "")))
unfolding listeners_for_gateway deployments_for_gateway deployments_for_api deployments_for_listener
lookups_exact idx key h = (
  λ l. collect-Mirrors gateway_ref key l h.by_gateway_ref,
  λ d. collect-Mirrors gateway_of key d h.by_gateway,
  λ d. collect-Mirrors api_of key d h.by_api,
  λ d. collect-Mirrors listener_of key d h.by_listener,
)
